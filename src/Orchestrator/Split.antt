-- ===== src/Orchestrator/Split.antt =====
-- Approach B: which ends its two children find, and which ones are left where they do not belong.
use seck.Base.{ℕ, ◌<◌, ◌≤◌, ◌≡◌, ◌≢◌, ◌∙◌, ap, subst, arith, some, Bytes}
use seck.Base.Outcome.{ok, bind-eq-ok, ok-injective}
use seck.Orchestrator.Descriptors.{
  read_end, write_end, inherited, Table, Kernel, close, kept, pipe, spawn,
}
use seck.Orchestrator.Spawn.{stdin_pipe, report_pipe, ipc_pipe, wire, Pair, start_pair}
use seck.Orchestrator.Pipes.{HasStdio, IsPiped, pipe-IsPiped, IsPiped-next, IsPiped-below}
use seck.Orchestrator.Wiring.{IsHanded, spawn-IsHanded}

pub record IsSplit (t : Table) (s : Pair) : Type 0 where
  pub bytes_stdin : s.bytes 3 ≡ some (inherited (read_end stdin_pipe))
  pub bytes_ipc : s.bytes 7 ≡ some (inherited (write_end ipc_pipe))
  pub priv_ipc : s.priv 3 ≡ some (inherited (read_end ipc_pipe))
  pub priv_report : s.priv 5 ≡ some (inherited (write_end report_pipe))
  pub priv_writes_ipc : s.priv s.bytes_to_priv_w ≡ some (inherited (write_end ipc_pipe))
  pub priv_reads_stdin :
      s.host_to_bytes_r ≢ 3
      → s.host_to_bytes_r ≢ 5
      → s.priv s.host_to_bytes_r ≡ some (inherited (read_end stdin_pipe))
  pub host_stdin : s.host s.host_to_bytes_w ≡ some (inherited (write_end stdin_pipe))
  pub host_report : s.host s.priv_to_host_r ≡ some (inherited (read_end report_pipe))
  pub host_else : (n : ℕ) → n ≢ s.host_to_bytes_w → n ≢ s.priv_to_host_r → s.host n ≡ t n

module _ (t t₁ t₂ t₃ bytes priv : Table) (r w r' w' r'' w'' : ℕ) (std : HasStdio t)
    (p : IsPiped stdin_pipe t t₁ r w) (p' : IsPiped ipc_pipe t₁ t₂ r' w')
    (p'' : IsPiped report_pipe t₂ t₃ r'' w'') where
  abbrev Ordered : Type 0
  Ordered = (3 ≤ r) × (r < w) × (w < r') × (r' < w') × (w' < r'') × (r'' < w'')

  ordered : Ordered
  ordered = (
    ground (arith, std r, p.r_free),
    p.r_lt_w,
    IsPiped-next stdin_pipe ipc_pipe t t₁ t₂ r w r' w' p p',
    p'.r_lt_w,
    IsPiped-next ipc_pipe report_pipe t₁ t₂ t₃ r' w' r'' w'' p' p'',
    p''.r_lt_w,
  )

  below : (n : ℕ) → n < r' → t₃ n ≡ t₁ n
  below n h =
      IsPiped-below report_pipe t₂ t₃ r'' w'' n p'' (omega (arith, ordered))
      ∙ IsPiped-below ipc_pipe t₁ t₂ r' w' n p' h

  at_h2b_r : t₃ r ≡ some (inherited (read_end stdin_pipe))
  at_h2b_r = below r (omega (arith, ordered)) ∙ p.at_r

  at_h2b_w : t₃ w ≡ some (inherited (write_end stdin_pipe))
  at_h2b_w = below w (omega (arith, ordered)) ∙ p.at_w

  at_b2p_r : t₃ r' ≡ some (inherited (read_end ipc_pipe))
  at_b2p_r = IsPiped-below report_pipe t₂ t₃ r'' w'' r' p'' (omega (arith, ordered)) ∙ p'.at_r

  at_b2p_w : t₃ w' ≡ some (inherited (write_end ipc_pipe))
  at_b2p_w = IsPiped-below report_pipe t₂ t₃ r'' w'' w' p'' (omega (arith, ordered)) ∙ p'.at_w

  abbrev pair : Pair
  unfolding close
  pair = record {
    host = close w'' (close w' (close r' (close r t₃)));
    bytes = bytes;
    priv = priv;
    host_to_bytes_r = r;
    host_to_bytes_w = w;
    bytes_to_priv_w = w';
    priv_to_host_r = r'';
  }

  host_else-pair : (n : ℕ) → n ≢ w → n ≢ r'' → pair.host n ≡ t n
  unfolding close
  host_else-pair n a b = ground (
    arith,
    ordered,
    p.elsewhere n,
    p'.elsewhere n,
    p''.elsewhere n,
    p.r_free,
    p'.r_free,
    p'.w_free,
    p''.w_free,
  )

  handed-IsSplit :
      IsHanded t₃ bytes 3 7 (read_end stdin_pipe) (write_end ipc_pipe)
      → IsHanded t₃ priv 3 5 (read_end ipc_pipe) (write_end report_pipe)
      → IsSplit t pair
  unfolding close
  handed-IsSplit b v = record {
    bytes_stdin = b.at_x;
    bytes_ipc = b.at_y;
    priv_ipc = v.at_x;
    priv_report = v.at_y;
    priv_writes_ipc =
        v.elsewhere w' (omega (arith, ordered)) (omega (arith, ordered)) ∙ ap kept at_b2p_w;
    priv_reads_stdin = λ x y. v.elsewhere r x y ∙ ap kept at_h2b_r;
    host_stdin = ground (arith, ordered, at_h2b_w);
    host_report = ground (arith, ordered, p''.at_r);
    host_else = host_else-pair;
  }

-- The parent's part of approach B, and what it leaves open in the children.
pub start_pair-IsSplit :
    (k : Kernel) (reader_bytes_binary reader_priv_binary : Bytes) (t : Table) (s : Pair)
    → HasStdio t
    → start_pair k reader_bytes_binary reader_priv_binary t ≡ ok s
    → IsSplit t s
unfolding start_pair
start_pair-IsSplit k bytes_binary priv_binary t s std h =
    let ((r, w, t₁), e₁, h₁) = bind-eq-ok (pipe k stdin_pipe t) _ h in
    let ((r', w', t₂), e₂, h₂) = bind-eq-ok (pipe k ipc_pipe t₁) _ h₁ in
    let ((r'', w'', t₃), e₃, h₃) = bind-eq-ok (pipe k report_pipe t₂) _ h₂ in
    let (b, e₄, h₄) = bind-eq-ok (spawn k bytes_binary (wire r 3 w' 7) t₃) _ h₃ in
    let (v, e₅, h₅) = bind-eq-ok (spawn k priv_binary (wire r' 3 w'' 5) t₃) _ h₄ in
    let p = pipe-IsPiped k stdin_pipe t t₁ r w e₁ in
    let p' = pipe-IsPiped k ipc_pipe t₁ t₂ r' w' e₂ in
    let p'' = pipe-IsPiped k report_pipe t₂ t₃ r'' w'' e₃ in
    let o = ordered t t₁ t₂ t₃ b v r w r' w' r'' w'' std p p' p'' in
    let at_r = at_h2b_r t t₁ t₂ t₃ b v r w r' w' r'' w'' std p p' p'' in
    let at_w' = at_b2p_w t t₁ t₂ t₃ b v r w r' w' r'' w'' std p p' p'' in
    let at_r' = at_b2p_r t t₁ t₂ t₃ b v r w r' w' r'' w'' std p p' p'' in
    let for_bytes =
      spawn-IsHanded r 3 w' 7 _ _ t₃ at_r at_w' (omega (arith, o)) (omega arith) k bytes_binary b
        e₄ in
    let for_priv =
      spawn-IsHanded r' 3 w'' 5 _ _ t₃ at_r' p''.at_w (omega (arith, o)) (omega arith) k priv_binary
        v e₅ in
    subst (IsSplit t) (ok-injective h₅)
      (handed-IsSplit t t₁ t₂ t₃ b v r w r' w' r'' w'' std p p' p'' for_bytes for_priv)
