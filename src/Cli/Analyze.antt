-- ===== src/Cli/Analyze.antt =====
-- `analyze` of crates/seck-cli/src/main.rs on Unix, from the arguments to what is printed. The
-- walked tree, the metadata of a descriptor, the place of the binary, the files beside it and JSON
-- are parameters.
use seck.Base.{ℕ, Bool, Option, none, some, List, [], ◌∷◌, ◌++◌, if◌then◌else◌, equal, Bytes, Text}
use seck.Base.Outcome.{Result, ok, err, ◌>>=◌, ◌>>◌, guard}
use seck.Base.Strings.{codes}
use seck.Report.{Report}
use seck.Report.Renderer.{render_terminal}
use seck.Wire.Pipe
use seck.Wire.{FileEntry}
use seck.Host.Walker.{Node, Entry, WalkError, default_limits, walk}
use seck.Host.Fileset.{Answers, FileSetError, build_fileset}
use seck.Orchestrator.Descriptors.{Table, Kernel, OrchestratorError}
use seck.Orchestrator.Run.{Child, run_sandboxed, run_sandboxed_mode_b}

-- Exactly one of the two is given, which the argument parser sees to.
pub data Source : Type 0 where
  path : Bytes → Source
  fd : ℕ → Source

-- `airgap` is only logged, and `fips` sets a flag that the analysis does not read.
pub record AnalyzeArgs : Type 0 where
  pub source : Source
  pub sandbox_mode : Text
  pub output : Text
  pub airgap : Bool
  pub fips : Bool

pub data CliError : Type 0 where
  walking : WalkError → CliError
  building : FileSetError → CliError
  no_current_exe no_parent reader_not_found reader_priv_not_found : CliError
  running : OrchestratorError → CliError
  unknown_sandbox_mode : Text → CliError
  parsing_report not_printable not_a_report : CliError

-- `.context(…)?`
abbrev pub in_context {ℓ} :
    {E : Type 0} {A : Type ℓ} → (E → CliError) → Result E A → Result CliError A
in_context wrap (ok a) = ok a
in_context wrap (err e) = err (wrap e)

abbrev pub required {ℓ} : {A : Type ℓ} → CliError → Option A → Result CliError A
required e none = err e
required e (some a) = ok a

-- What the command finds on the machine. `metadata` is the length of `/dev/fd/N`; `parent` is the
-- directory of the running binary.
pub record Machine : Type 0 where
  pub tree : Bytes → Node × Option Bytes
  pub metadata : ℕ → Option ℕ
  pub answers : ℕ → Answers
  pub current_exe : Option Bytes
  pub parent : Bytes → Option Bytes
  pub exists : Bytes → Bool
  pub kernel : Kernel
  pub write : Pipe.Kernel
  pub reads : Bytes → Answers
  pub table : Table

-- The programs in the files beside the binary, and `serde_json`.
pub record Programs : Type 1 where
  pub seck_reader : Child
  pub bytes_to_ipc : Child
  pub seck_reader_priv : Child
  pub Value : Type 0
  pub from_slice : Bytes → Option Value
  pub to_string_pretty : Value → Option Text
  pub from_value : Value → Option Report

module _ (m : Machine) where
  unfoldable pub entries_of : Source → Result CliError (List Entry)
  entries_of (fd raw_fd) = ok (
      record {
        relative = codes "fd_input";
        fd = raw_fd;
        size = elim (m.metadata raw_fd) [ some len ↦ len | none ↦ 0 ];
      }
      ∷ [])
  entries_of (path p) =
      let (root, root_name) = m.tree p in in_context walking (walk root root_name default_limits)

  module _ (progs : Programs) where
    unfoldable pub run_in_mode : Text → Bytes → List FileEntry → Result CliError Bytes
    run_in_mode mode sib fileset =
        let reader = sib ++ codes "/seck-reader" in
        let reader_priv = sib ++ codes "/seck-reader-priv" in
        if equal mode (codes "a")
        then in_context running
            (run_sandboxed m.kernel m.write m.reads m.table reader progs.seck_reader fileset)
        else if equal mode (codes "b")
        then guard (m.exists reader_priv) reader_priv_not_found
          >> in_context running (
              run_sandboxed_mode_b m.kernel m.write m.reads m.table reader reader_priv
                progs.bytes_to_ipc progs.seck_reader_priv fileset)
        else err (unknown_sandbox_mode mode)

    unfoldable pub print_json : progs.Value → Result CliError Text
    print_json v = do
      pretty ← required not_printable (progs.to_string_pretty v)
      ok (pretty ++ b'\n' ∷ [])

    unfoldable pub print_terminal : progs.Value → Result CliError Text
    print_terminal v = do
      report ← required not_a_report (progs.from_value v)
      ok (render_terminal report)

    -- What is printed.
    unfoldable pub output_of : Text → Bytes → Result CliError Text
    unfolding print_json print_terminal
    output_of output report_bytes = do
      v ← required parsing_report (progs.from_slice report_bytes)
      if equal output (codes "json") then print_json v else print_terminal v

    unfoldable pub analyze : AnalyzeArgs → Result CliError Text
    unfolding entries_of run_in_mode output_of
    analyze args = do
      entries ← entries_of args.source
      fileset ← in_context building (build_fileset m.answers entries)
      exe ← required no_current_exe m.current_exe
      sib ← required no_parent (m.parent exe)
      guard (m.exists (sib ++ codes "/seck-reader")) reader_not_found
      result ← run_in_mode args.sandbox_mode sib fileset
      output_of args.output result
