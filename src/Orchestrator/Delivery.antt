-- ===== src/Orchestrator/Delivery.antt =====
-- The run of the reader that holds the bytes, from the file set to the report.
use seck.Base.{
  ◌≡◌, ◌≢◌, refl, ap, ◌∙◌, arith, not, ◌||◌, ◌==◌, if◌then◌else◌, Bool-cases, inl, inr, none, some,
  List, [], ◌∷◌, ◌++◌, append-nil, append_assoc, length, All, Bytes,
}
use seck.Base.Outcome.{Result, ok, err}
use seck.Wire.{FileEntry}
use seck.Wire.Pipe
use seck.Wire.Pipe.{FdError, Pipe, Sends, IsSent}
use seck.Wire.Writer.{encode, write_fileset_protocol, write_fileset_protocol-Sends}
use seck.Wire.Willing.{IsWilling, write_fileset_protocol-Succeeds}
use seck.Host.Fileset.{Answers, content}
use seck.Orchestrator.Descriptors.{Table, Kernel, OrchestratorError}
use seck.Orchestrator.Spawn.{Started, Pair, start_reader, start_pair}
use seck.Orchestrator.Run.{
  read_to_end_from_fd, Child, written, empty_pipe, run_sandboxed, run_sandboxed_mode_b,
}

-- The answers to `read` are `b` in pieces, without an error.
pub record Carries (b : Bytes) (a : Answers) : Type 0 where
  pub no_error : All (λ x. x ≢ none) a
  pub content_is : content a ≡ b

read_to_end-content :
    (out : Bytes) (a : Answers)
    → All (λ x. x ≢ none) a
    → read_to_end_from_fd out a ≡ ok (out ++ content a)
unfolding read_to_end_from_fd content
read_to_end-content out [] h = rw append-nil refl
read_to_end-content out (none ∷ a) h = absurd (h.0 refl)
read_to_end-content out (some buf ∷ a) h = elim (Bool-cases (length buf == 0)) [
  | inl last ↦ rw (last, content) (rw append-nil refl)
  | inr more ↦
      rw (more, content)
        (read_to_end-content (out ++ buf) a h.1 ∙ ap ok (append_assoc out buf (content a)))
]

pub read_to_end-Carries : (b : Bytes) (a : Answers) → Carries b a → read_to_end_from_fd [] a ≡ ok b
read_to_end-Carries b a c = read_to_end-content [] a c.no_error ∙ ap ok c.content_is

written-IsSent :
    (d : Bytes) (r : Result FdError (Unit {0}) × Pipe)
    → IsSent d empty_pipe r
    → r.0 ≡ ok tt
    → written r ≡ ok d
written-IsSent d (ok u, p) s e = ap ok s
written-IsSent d (err x, p) s e = cc

-- The whole stream is in the pipe, if the pipe takes a byte at each call.
pub written-encode :
    (kernel : Pipe.Kernel) (fileset : List FileEntry)
    → IsWilling kernel
    → written (write_fileset_protocol kernel fileset empty_pipe) ≡ ok (encode fileset)
written-encode kernel fileset willing =
    written-IsSent (encode fileset) _ ((write_fileset_protocol-Sends kernel fileset).at empty_pipe)
      (write_fileset_protocol-Succeeds kernel willing fileset empty_pipe)

-- If the reader is started, the pipe takes a byte at each call and the answers to `read` carry the
-- report, the run returns what the reader writes for the encoded file set, or fails as the reader
-- does.
pub run_sandboxed-encode :
    (k : Kernel) (kernel : Pipe.Kernel) (reads : Bytes → Answers) (t : Table)
    (reader_binary : Bytes) (reader : Child) (fileset : List FileEntry) (s : Started)
    → start_reader k reader_binary t ≡ ok s
    → IsWilling kernel
    → ((b : Bytes) → Carries b (reads b))
    → run_sandboxed k kernel reads t reader_binary reader fileset ≡ (
        if reader.succeeds (encode fileset)
        then ok (reader.writes (encode fileset))
        else err OrchestratorError.reader_failed)
unfolding run_sandboxed
run_sandboxed-encode k kernel reads t reader_binary reader fileset s started willing carries =
    rw
      (
        started,
        written-encode kernel fileset willing,
        read_to_end-Carries (reader.writes (encode fileset)) _ (carries _),
      )
      (ground arith)

-- If both children are started, the pipe takes a byte at each call and the answers to `read` carry the
-- report, the run of approach B returns what the process without the bytes writes for the messages of
-- the other one, or fails if either does.
pub run_sandboxed_mode_b-encode :
    (k : Kernel) (kernel : Pipe.Kernel) (reads : Bytes → Answers) (t : Table)
    (reader_bytes_binary reader_priv_binary : Bytes) (bytes priv : Child) (fileset : List FileEntry)
    (s : Pair)
    → start_pair k reader_bytes_binary reader_priv_binary t ≡ ok s
    → IsWilling kernel
    → ((b : Bytes) → Carries b (reads b))
    → run_sandboxed_mode_b k kernel reads t reader_bytes_binary reader_priv_binary bytes priv
        fileset
      ≡ (if not (bytes.succeeds (encode fileset))
            || not (priv.succeeds (bytes.writes (encode fileset)))
          then err OrchestratorError.reader_failed
          else ok (priv.writes (bytes.writes (encode fileset))))
unfolding run_sandboxed_mode_b
run_sandboxed_mode_b-encode k kernel reads t rb rp bytes priv fileset s started willing carries =
    rw
      (
        started,
        written-encode kernel fileset willing,
        read_to_end-Carries (priv.writes (bytes.writes (encode fileset))) _ (carries _),
      )
      refl
