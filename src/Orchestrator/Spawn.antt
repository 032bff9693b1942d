-- ===== src/Orchestrator/Spawn.antt =====
-- How `run_sandboxed` and `run_sandboxed_mode_b` of crates/seck-host/src/orchestrator.rs make the
-- pipes, start the children and drop the ends that belong to them.
use seck.Base.{ℕ, Bytes}
use seck.Base.Outcome.{Result, ok, ◌>>=◌}
use seck.Orchestrator.Descriptors.{Table, Kernel, OrchestratorError, close, dup2, pipe, spawn}

-- The pipes by their names in the source.
abbrev pub stdin_pipe : ℕ
stdin_pipe = 0

abbrev pub report_pipe : ℕ
report_pipe = 1

abbrev pub ipc_pipe : ℕ
ipc_pipe = 2

-- The tables of the host and of the reader once the child's ends are dropped in the host, and the
-- host's own two descriptors.
pub record Started : Type 0 where
  pub host : Table
  pub reader : Table
  pub stdin_w : ℕ
  pub report_r : ℕ

-- Descriptor `a` becomes `x`, then `b` becomes `y`.
abbrev pub wire : ℕ → ℕ → ℕ → ℕ → Table → Result OrchestratorError Table
wire a x b y t = do child ← dup2 a x t; dup2 b y child

-- The tables once both children are started, in the approach B, and numbers in the host's table;
-- the host has dropped `host_to_bytes_r` and `bytes_to_priv_w` by then.
pub record Pair : Type 0 where
  pub host : Table
  pub bytes : Table
  pub priv : Table
  pub host_to_bytes_r : ℕ
  pub host_to_bytes_w : ℕ
  pub bytes_to_priv_w : ℕ
  pub priv_to_host_r : ℕ

module _ (k : Kernel) where
  unfoldable pub start_reader : Bytes → Table → Result OrchestratorError Started
  unfolding pipe spawn dup2 close
  start_reader reader_binary t = do
    (stdin_r, stdin_w, t₁) ← pipe k stdin_pipe t
    (report_r, report_w, t₂) ← pipe k report_pipe t₁
    reader ← spawn k reader_binary (wire stdin_r 3 report_w 5) t₂
    ok record {
      host = close report_w (close stdin_r t₂);
      reader = reader;
      stdin_w = stdin_w;
      report_r = report_r;
    }

  unfoldable pub start_pair : Bytes → Bytes → Table → Result OrchestratorError Pair
  unfolding pipe spawn dup2 close
  start_pair reader_bytes_binary reader_priv_binary t = do
    (host_to_bytes_r, host_to_bytes_w, t₁) ← pipe k stdin_pipe t
    (bytes_to_priv_r, bytes_to_priv_w, t₂) ← pipe k ipc_pipe t₁
    (priv_to_host_r, priv_to_host_w, t₃) ← pipe k report_pipe t₂
    bytes ← spawn k reader_bytes_binary (wire host_to_bytes_r 3 bytes_to_priv_w 7) t₃
    priv ← spawn k reader_priv_binary (wire bytes_to_priv_r 3 priv_to_host_w 5) t₃
    ok record {
      host =
          close priv_to_host_w
            (close bytes_to_priv_w (close bytes_to_priv_r (close host_to_bytes_r t₃)));
      bytes = bytes;
      priv = priv;
      host_to_bytes_r = host_to_bytes_r;
      host_to_bytes_w = host_to_bytes_w;
      bytes_to_priv_w = bytes_to_priv_w;
      priv_to_host_r = priv_to_host_r;
    }
