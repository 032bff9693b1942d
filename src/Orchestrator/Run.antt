-- ===== src/Orchestrator/Run.antt =====
-- `run_sandboxed`, `run_sandboxed_mode_b` and `read_to_end_from_fd` of
-- crates/seck-host/src/orchestrator.rs. The kernel's answers to `write` and to `read` are parameters,
-- as is what a child does with its input.
use seck.Base.{Bool, not, ◌||◌, none, some, List, [], ◌∷◌, ◌++◌, ◌==◌, if◌then◌else◌, length, Bytes}
use seck.Base.Outcome.{Result, ok, err, ◌>>=◌}
use seck.Wire.{FileEntry}
use seck.Wire.Pipe
use seck.Wire.Pipe.{FdError, Pipe}
use seck.Wire.Writer.{write_fileset_protocol}
use seck.Host.Fileset.{Answers}
use seck.Orchestrator.Descriptors.{Table, Kernel, OrchestratorError, nix, fd, reader_failed}
use seck.Orchestrator.Spawn.{start_reader, start_pair}

unfoldable pub read_to_end_from_fd : Bytes → Answers → Result OrchestratorError Bytes
read_to_end_from_fd out [] = ok out
read_to_end_from_fd out (none ∷ rest) = err nix
read_to_end_from_fd out (some buf ∷ rest) =
    let more = read_to_end_from_fd (out ++ buf) rest in if length buf == 0 then ok out else more

-- What a child writes, as a function of what it reads, and whether it exits with success.
pub record Child : Type 0 where
  pub writes : Bytes → Bytes
  pub succeeds : Bytes → Bool

-- What went into the pipe, which starts out empty.
abbrev pub written : Result FdError (Unit {0}) × Pipe → Result OrchestratorError Bytes
written (ok _, p) = ok p.sent
written (err e, p) = err (fd e)

abbrev pub empty_pipe : Pipe
empty_pipe = record { calls = 0; sent = [] }

-- `reads` are the answers to the host's `read` on a pipe into which the bytes were written.
module _ (k : Kernel) (kernel : Pipe.Kernel) (reads : Bytes → Answers) (t : Table) where
  unfoldable pub run_sandboxed : Bytes → Child → List FileEntry → Result OrchestratorError Bytes
  unfolding read_to_end_from_fd
  run_sandboxed reader_binary reader fileset = do
    s ← start_reader k reader_binary t
    sent ← written (write_fileset_protocol kernel fileset empty_pipe)
    report ← read_to_end_from_fd [] (reads (reader.writes sent))
    if not (reader.succeeds sent) then err reader_failed else ok report

  unfoldable pub run_sandboxed_mode_b :
      Bytes → Bytes → Child → Child → List FileEntry → Result OrchestratorError Bytes
  unfolding read_to_end_from_fd
  run_sandboxed_mode_b reader_bytes_binary reader_priv_binary bytes priv fileset = do
    s ← start_pair k reader_bytes_binary reader_priv_binary t
    sent ← written (write_fileset_protocol kernel fileset empty_pipe)
    report ← read_to_end_from_fd [] (reads (priv.writes (bytes.writes sent)))
    if not (bytes.succeeds sent) || not (priv.succeeds (bytes.writes sent))
        then err reader_failed
        else ok report
