-- ===== src/Orchestrator/Descriptors.antt =====
-- Descriptor tables, and the calls that crates/seck-host/src/orchestrator.rs makes on them. The
-- kernel's choice of a number is a parameter: POSIX gives the lowest one that is free.
use seck.Base.{ℕ, ◌<◌, ◌≡◌, ◌≢◌, Bool, false, Option, none, some, ◌==◌, if◌then◌else◌, Bytes}
use seck.Base.Outcome.{Result, ok, err, ◌>>=◌}
use seck.Wire.Pipe.{FdError}

-- The ends of pipes, which are named by numbers, and whatever else may be open.
pub data End : Type 0 where
  read_end : ℕ → End
  write_end : ℕ → End
  opened_file : ℕ → End
  other : End

pub record Open : Type 0 where
  pub end : End
  pub cloexec : Bool

-- `nix::unistd::pipe` sets no flag, and neither does `dup2`.
abbrev pub inherited : End → Open
inherited e = record { end = e; cloexec = false }

abbrev pub Table : Type 0
Table = ℕ → Option Open

abbrev pub set : Table → ℕ → Option Open → Table
set t m o n = if n == m then o else t n

pub record Kernel : Type 0 where
  pub lowest : Table → Option ℕ
  pub lowest_free : (t : Table) (n : ℕ) → lowest t ≡ some n → t n ≡ none
  pub lowest_least : (t : Table) (n : ℕ) → lowest t ≡ some n → (m : ℕ) → m < n → t m ≢ none
  pub can_exec : Bytes → Bool

pub data OrchestratorError : Type 0 where
  io nix : OrchestratorError
  fd : FdError → OrchestratorError
  reader_failed : OrchestratorError

abbrev pub or_error {ℓ} : {A : Type ℓ} → OrchestratorError → Option A → Result OrchestratorError A
or_error e none = err e
or_error e (some a) = ok a

-- `drop` of an owned descriptor
unfoldable pub close : ℕ → Table → Table
close n t = set t n none

-- The descriptor `new` after `dup2(old, new)`, where `old` is open as `o`. Nothing happens if both
-- are one number.
abbrev pub duplicated : ℕ → ℕ → Open → Table → Table
duplicated old new o t n =
    if old == new then t n else if n == new then some (inherited o.end) else t n

unfoldable pub dup2 : ℕ → ℕ → Table → Result OrchestratorError Table
dup2 old new t = elim (t old) [ none ↦ err io | some o ↦ ok (duplicated old new o t) ]

-- What a table keeps across `exec`.
abbrev pub kept : Option Open → Option Open
kept none = none
kept (some o) = if o.cloexec then none else some o

module _ (k : Kernel) where
  -- The read end, the write end, and the table that holds both.
  unfoldable pub pipe : ℕ → Table → Result OrchestratorError (ℕ × ℕ × Table)
  pipe id t = do
    r ← or_error nix (k.lowest t)
    w ← or_error nix (k.lowest (set t r (some (inherited (read_end id)))))
    ok (r, w, set (set t r (some (inherited (read_end id)))) w (some (inherited (write_end id))))

  -- `cmd.spawn()`: the child's table, a copy of the parent's on which `pre_exec` has run.
  unfoldable pub spawn :
      Bytes → (Table → Result OrchestratorError Table) → Table → Result OrchestratorError Table
  spawn binary pre_exec t = do
    child ← pre_exec t
    if k.can_exec binary then ok (λ n. kept (child n)) else err io
