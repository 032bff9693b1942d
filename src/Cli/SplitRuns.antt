-- ===== src/Cli/SplitRuns.antt =====
-- A run of `seck analyze` in approach B at a concrete input.
use seck.Base.{◌∷◌, ◌++◌, ◌≡◌, refl, true, false, none, some, []}
use seck.Base.Strings.{codes}
use seck.Host.Runs.{walked, fileset, walk-tree, build_tree, walked-IsSteady}
use seck.Orchestrator.Posix.{two_readers, start_pair-fresh, at_once-Carries, five_bytes-IsWilling}
use seck.Base.Outcome.{ok}
use seck.Report.Value.{Value, get, array, items}
use seck.Reader.Runs.{json-IsDocumented}
use seck.Reader.Process.{Process}
use seck.Reader.ProcessRuns.{codec, codec-IsJson}
use seck.Cli.Analyze.{Programs, analyze}
use seck.Cli.Printed.{programs_b, GoesWellB, each, listed_split, analyze-lists_split}
use seck.Cli.Runs.{machine, idle_child, given}

-- A process whose writes succeed.
abbrev process : Process
process = record {
  args = [];
  seck_model_path = none;
  lockdown = none;
  fd3 = [];
  random_nonce = some (codes "n");
  write5 = λ b. true;
  write7 = λ b. true;
  os = codes "linux";
  bundled_profile_hash = codes "profile";
}

abbrev split_programs : Programs
split_programs =
    programs_b codec codec-IsJson machine codec.to_string (codes "src") (codes "/opt/seck")
      (codes "/opt") (codes "n") walked fileset json-IsDocumented process process idle_child
      two_readers

split_goes_well :
    GoesWellB codec codec-IsJson machine codec.to_string
      (codes "src")
      (codes "/opt/seck")
      (codes "/opt")
      (codes "n")
      walked
      fileset
      json-IsDocumented
      process
      process
      idle_child
      two_readers
split_goes_well = record {
  is_bytes = refl;
  is_priv = refl;
  walks = walk-tree;
  builds = build_tree;
  steady = walked-IsSteady;
  has_exe = refl;
  has_parent = refl;
  has_reader = refl;
  has_reader_priv = refl;
  starts = start_pair-fresh (codes "/opt/seck-reader") (codes "/opt/seck-reader-priv");
  willing = five_bytes-IsWilling;
  carries = at_once-Carries;
  has_nonce = refl;
  writes7 = λ b. refl;
  writes5 = λ b. refl;
}

analyze-lists_split_example :
    (v : Value) × (analyze machine split_programs (record given { sandbox_mode = codes "b" })
      ≡ ok (codec.to_string v ++ b'\n' ∷ []))
    × (get (codes "inputs") v
        ≡ some (array (items (each codec machine (listed_split codec machine) walked))))
analyze-lists_split_example =
    analyze-lists_split codec codec-IsJson machine codec.to_string (codes "src") (codes "/opt/seck")
      (codes "/opt") (codes "n") walked fileset json-IsDocumented process process idle_child
      two_readers true false split_goes_well
