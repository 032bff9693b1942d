-- ===== src/Trace/Checker.antt =====
-- `check_trace` of crates/seck-trace-check/src/checker.rs.
pub mod Occurs
pub mod Sound
use seck.Base.{
  ℕ, Bool, true, false, not, ◌&&◌, ◌||◌, List, [], ◌∷◌, ltb, ◌==◌, if◌then◌else◌, length, take,
  equal, Bytes, Text,
}
use seck.Base.Int.{ℤ, is_pos}
use seck.Base.Outcome.{Result, ok, err, ◌>>=◌, ◌>>◌, guard}
use seck.Trace.{Effect, open_p, exec_p, read_f, write_f, net_conn}

pub data InvariantError : Type 0 where
  tainted_open : Bytes → InvariantError
  tainted_exec : Bytes → InvariantError
  net : Text → ℕ → InvariantError
  unauthorized_write : ℤ → InvariantError

-- `haystack.windows(n).any(|w| w == needle)`
unfoldable pub any_window : Bytes → Bytes → Bool
any_window needle [] = false
any_window needle (b ∷ haystack) =
    equal (take (length needle) (b ∷ haystack)) needle || any_window needle haystack

unfoldable pub contains_subsequence : Bytes → Bytes → Bool
contains_subsequence haystack needle =
    if length needle == 0 || ltb (length haystack) (length needle)
    then false
    else any_window needle haystack

-- ALLOWED_TAINTED_WRITE_FDS
unfoldable pub is_allowed_fd : ℤ → Bool
is_allowed_fd fd = is_pos 3 fd || is_pos 5 fd

abbrev pub Check : Type 0
Check = Result InvariantError (Unit {0})

module _ (canary : Bytes) where
  unfoldable pub clean : Bytes → Bool
  clean s = not (contains_subsequence s canary)

  unfoldable pub check_args : List Bytes → Check
  check_args [] = ok tt
  check_args (a ∷ args) = do guard (clean a) (tainted_exec a); check_args args

  unfoldable pub check_env : List (Bytes × Bytes) → Check
  check_env [] = ok tt
  check_env ((k, v) ∷ env) = do
    guard (clean k) (tainted_exec k)
    guard (clean v) (tainted_exec v)
    check_env env

  -- the body of the loop
  unfoldable pub check_effect : Effect → Check
  unfolding clean check_args check_env
  check_effect (open_p path) = guard (clean path) (tainted_open path)
  check_effect (exec_p path args env) = do
    guard (clean path) (tainted_exec path)
    check_args args
    check_env env
  check_effect (net_conn host port) = err (net host port)
  check_effect (write_f fd bytes) = guard (clean bytes || is_allowed_fd fd) (unauthorized_write fd)
  check_effect (read_f fd) = ok tt

  unfoldable pub check_trace : List Effect → Check
  check_trace [] = ok tt
  check_trace (e ∷ effects) = do check_effect e; check_trace effects
