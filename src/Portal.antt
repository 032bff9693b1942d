-- ===== src/Portal.antt =====
-- crates/seck-portal/src/main.rs: the request to analyse a path, over the descriptor table of the
-- service. The bus, the resolver's answer and the kernel are parameters.
pub mod Laws
mod Runs
use seck.Base.Paths.{path_join}
use seck.Base.{ℕ, Bool, true, Option, none, some, List, [], ◌∷◌, ◌++◌, if◌then◌else◌, Bytes, Text}
use seck.Base.Outcome.{Result, ok, err, ◌>>=◌}
use seck.Base.Strings.{codes}
use seck.Orchestrator.Descriptors.{
  End, opened_file, Open, Table, set, Kernel, OrchestratorError, dup2, spawn, or_error, nix,
}

-- `open_target` answers with a descriptor or not; the file is named by a number.
pub record Service : Type 0 where
  pub kernel : Kernel
  pub resolves : Text → Option ℕ
  pub path_dirs : Option (List Bytes)
  pub is_file : Bytes → Bool

pub data PortalError : Type 0 where
  failed_open : PortalError
  failed_spawn : OrchestratorError → PortalError

-- `into_raw_fd`: nothing closes it any more. `O_CLOEXEC` is set by the resolver.
abbrev pub of_file : ℕ → Open
of_file id = record { end = opened_file id; cloexec = true }

abbrev pub or_failed {ℓ} : {A : Type ℓ} → Option A → Result PortalError A
or_failed none = err failed_open
or_failed (some a) = ok a

abbrev pub or_spawn : Result OrchestratorError Table → Result PortalError Table
or_spawn (ok child) = ok child
or_spawn (err e) = err (failed_spawn e)

module _ (s : Service) where
  unfoldable pub find_file : Text → List Bytes → Option Bytes
  unfolding path_join
  find_file prog [] = none
  find_file prog (d ∷ dirs) =
      let candidate = path_join d prog in
      let rest = find_file prog dirs in if s.is_file candidate then some candidate else rest

  unfoldable pub portal_which : Text → Option Bytes
  unfolding find_file
  portal_which prog = elim s.path_dirs [ none ↦ none | some dirs ↦ find_file prog dirs ]

  abbrev pub seck_exe : Option Bytes → Bytes
  seck_exe none = codes "/usr/local/bin/seck"
  seck_exe (some p) = p

  -- The number of the file in the service, and the service's table that holds it.
  unfoldable pub open_path : Text → Table → Result PortalError (ℕ × ℕ × Table)
  open_path path t = do
    id ← or_failed (s.resolves path)
    raw ← or_failed (s.kernel.lowest t)
    ok (raw, id, set t raw (some (of_file id)))

  -- The child's table.
  unfoldable pub start_analyze : ℕ → Table → Result PortalError Table
  unfolding portal_which dup2 spawn
  start_analyze raw t =
      or_spawn (spawn s.kernel (seck_exe (portal_which (codes "seck"))) (dup2 raw 3) t)

  -- The answer with the child's table, and the service's table behind the request.
  abbrev pub after_open :
      Table → Result PortalError (ℕ × ℕ × Table) → Result PortalError Table × Table
  after_open t (err e) = (err e, t)
  after_open t (ok (raw, id, t')) = (start_analyze raw t', t')

  unfoldable pub analyze_path : Text → Table → Result PortalError Table × Table
  unfolding open_path start_analyze
  analyze_path path t = after_open t (open_path path t)

  -- One request behind the other.
  unfoldable pub requests : List Text → Table → Table
  unfolding analyze_path
  requests [] t = t
  requests (path ∷ paths) t = requests paths (analyze_path path t).1
