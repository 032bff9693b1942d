-- ===== src/Trace.antt =====
-- crates/seck-trace-check: an `strace` capture parsed into effects (src/strace_parse.rs), and the
-- check of the I/O boundary over them (src/checker.rs).
pub mod Parse
pub mod Checker
pub mod Coverage
mod Runs
use seck.Base.{ℕ, List, Bytes, Text}
use seck.Base.Int.{ℤ}

pub data Effect : Type 0 where
  open_p : Bytes → Effect
  exec_p : Bytes → List Bytes → List (Bytes × Bytes) → Effect
  read_f : ℤ → Effect
  write_f : ℤ → Bytes → Effect
  net_conn : Text → ℕ → Effect
