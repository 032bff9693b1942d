-- ===== src/Cli/Runs.antt =====
-- Runs of the commands, and the theorems of `Cli` at concrete inputs.
use seck.Base.{◌∷◌, ◌++◌, ◌≡◌, refl, true, false, none, some, [], equal}
use seck.Base.Strings.{codes}
use seck.Host.Runs.{tree, walked, answers, fileset, walk-tree, build_tree, walked-IsSteady}
use seck.Orchestrator.Run.{Child}
use seck.Orchestrator.Posix.{
  posix, fresh, one_reader, start_reader-fresh, at_once, at_once-Carries, five_bytes,
  five_bytes-IsWilling,
}
use seck.Report.Value.{Value, get, array, items}
use seck.Reader.ProcessRuns.{codec, codec-IsJson}
use seck.Cli.Refused.{analyze-refused}
use seck.Cli.Analyze.{path, AnalyzeArgs, Machine, Programs, not_a_report, analyze}
use seck.Base.Outcome.{ok, err}
use seck.Cli.Printed.{programs_a, GoesWellA, always, each, listed, analyze-lists}

abbrev pub machine : Machine
machine = record {
  tree = λ p. (tree, none);
  metadata = λ n. none;
  answers = answers;
  current_exe = some (codes "/opt/seck");
  parent = λ p. some (codes "/opt");
  exists = λ p. true;
  kernel = posix;
  write = five_bytes;
  reads = at_once;
  table = fresh;
}

abbrev pub given : AnalyzeArgs
given = record {
  source = path (codes "src");
  sandbox_mode = codes "a";
  output = codes "json";
  airgap = true;
  fips = false;
}

-- A child that is not run.
abbrev pub idle_child : Child
idle_child = record { writes = λ s. []; succeeds = λ s. true }

abbrev json_programs : Programs
json_programs =
    programs_a codec codec-IsJson machine codec.to_string (codes "src") (codes "/opt/seck")
      (codes "/opt") (codes "n") walked fileset (codes "linux") (codes "profile") idle_child
      idle_child one_reader

json_goes_well :
    GoesWellA codec codec-IsJson machine codec.to_string
      (codes "src")
      (codes "/opt/seck")
      (codes "/opt")
      (codes "n")
      walked
      fileset
      (codes "linux")
      (codes "profile")
      idle_child
      idle_child
      one_reader
json_goes_well = record {
  is_reader = refl;
  walks = walk-tree;
  builds = build_tree;
  steady = walked-IsSteady;
  has_exe = refl;
  has_parent = refl;
  has_reader = refl;
  starts = start_reader-fresh (codes "/opt/seck-reader");
  willing = five_bytes-IsWilling;
  carries = at_once-Carries;
}

analyze-lists_example :
    (v : Value) × (analyze machine json_programs given ≡ ok (codec.to_string v ++ b'\n' ∷ []))
    × (get (codes "inputs") v
        ≡ some (array (items (each codec machine (listed codec machine) walked))))
analyze-lists_example =
    analyze-lists codec codec-IsJson machine codec.to_string (codes "src") (codes "/opt/seck")
      (codes "/opt") (codes "n") walked fileset (codes "linux") (codes "profile") idle_child
      idle_child one_reader true false json_goes_well

analyze-refused_example :
    analyze machine json_programs (record given { output = codes "terminal" }) ≡ err not_a_report
unfolding equal
analyze-refused_example =
    analyze-refused codec codec-IsJson (codes "linux") (codes "profile") (codes "n") machine
      idle_child idle_child (always codec.to_string) (codes "src") (codes "/opt/seck")
      (codes "/opt") walked fileset one_reader (codes "terminal") true false json_goes_well refl
