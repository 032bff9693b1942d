-- ===== src/Orchestrator/Wiring.antt =====
-- Which ends the children find at their numbers, and which ones the host keeps.
use seck.Base.{
  ℕ, ◌<◌, ◌≤◌, ◌≡◌, ◌≢◌, ◌∙◌, refl, ap, subst, arith, some, Bool-cases, inl, inr, Bytes,
}
use seck.Base.Outcome.{ok, bind-eq-ok, ok-injective}
use seck.Orchestrator.Descriptors.{
  End, read_end, write_end, inherited, Table, Kernel, close, duplicated, dup2, kept, pipe, spawn,
}
use seck.Orchestrator.Spawn.{stdin_pipe, report_pipe, wire, Started, start_reader}
use seck.Orchestrator.Pipes.{HasStdio, IsPiped, pipe-IsPiped, IsPiped-next, IsPiped-below}

-- A child's table: two ends at the numbers meant for them, and elsewhere all that the host had.
pub record IsHanded (t c : Table) (x y : ℕ) (p q : End) : Type 0 where
  pub at_x : c x ≡ some (inherited p)
  pub at_y : c y ≡ some (inherited q)
  pub elsewhere : (n : ℕ) → n ≢ x → n ≢ y → c n ≡ kept (t n)

module _ (a x b y : ℕ) (p q : End) (t : Table) (ta : t a ≡ some (inherited p))
    (tb : t b ≡ some (inherited q)) (b_ne_x : b ≢ x) (x_ne_y : x ≢ y) where
  abbrev first : Table
  first = duplicated a x (inherited p) t

  abbrev both : Table
  both = duplicated b y (inherited q) first

  first_b : first b ≡ some (inherited q)
  first_b = ground arith

  wire-both : wire a x b y t ≡ ok both
  unfolding dup2
  wire-both = rw (ta, dup2) (rw (first_b, dup2) refl)

  pub both-IsHanded : IsHanded t (λ n. kept (both n)) x y p q
  both-IsHanded = record {
    at_x = ground arith;
    at_y = ground arith;
    elsewhere = λ n nx ny. ground arith;
  }

  pub spawn-IsHanded :
      (k : Kernel) (binary : Bytes) (c : Table)
      → spawn k binary (wire a x b y) t ≡ ok c
      → IsHanded t c x y p q
  unfolding spawn
  spawn-IsHanded k binary c h =
      let h' = rw wire-both at h in
      elim (Bool-cases (k.can_exec binary)) [
        | inl can ↦ subst (λ u. IsHanded t u x y p q) (ok-injective (rw can at h')) both-IsHanded
        | inr no_exec ↦ let e = rw no_exec at h' in cc
      ]

-- The reader of approach A: the ends that it is given, and the end of its own input that it
-- keeps. The host has its two ends, and else what it had before.
pub record IsWired (t : Table) (s : Started) : Type 0 where
  pub reader_stdin : s.reader 3 ≡ some (inherited (read_end stdin_pipe))
  pub reader_report : s.reader 5 ≡ some (inherited (write_end report_pipe))
  pub reader_keeps : s.stdin_w ≢ 5 → s.reader s.stdin_w ≡ some (inherited (write_end stdin_pipe))
  pub host_stdin : s.host s.stdin_w ≡ some (inherited (write_end stdin_pipe))
  pub host_report : s.host s.report_r ≡ some (inherited (read_end report_pipe))
  pub host_else : (n : ℕ) → n ≢ s.stdin_w → n ≢ s.report_r → s.host n ≡ t n

module _ (t t₁ t₂ c : Table) (r w r' w' : ℕ) (std : HasStdio t) (p : IsPiped stdin_pipe t t₁ r w)
    (q : IsPiped report_pipe t₁ t₂ r' w') where
  above : 3 ≤ r
  above = ground (arith, std r, p.r_free)

  above_next : w < r'
  above_next = IsPiped-next stdin_pipe report_pipe t t₁ t₂ r w r' w' p q

  at_stdin_w : t₂ w ≡ some (inherited (write_end stdin_pipe))
  at_stdin_w = IsPiped-below report_pipe t₁ t₂ r' w' w q above_next ∙ p.at_w

  abbrev started : Started
  unfolding close
  started = record { host = close w' (close r t₂); reader = c; stdin_w = w; report_r = r' }

  handed-IsWired :
      IsHanded t₂ c 3 5 (read_end stdin_pipe) (write_end report_pipe) → IsWired t started
  unfolding close
  handed-IsWired h = record {
    reader_stdin = h.at_x;
    reader_report = h.at_y;
    reader_keeps = λ ne. h.elsewhere w (omega (arith, above, p.r_lt_w)) ne ∙ ap kept at_stdin_w;
    host_stdin = ground (arith, above, above_next, p.r_lt_w, q.r_lt_w, at_stdin_w);
    host_report = ground (arith, above, above_next, p.r_lt_w, q.r_lt_w, q.at_r);
    host_else =
        λ n a b. ground (arith, p.elsewhere n, q.elsewhere n, p.r_free, q.w_free, p.elsewhere w');
  }

-- The parent's part of approach A: every start that succeeds hands the reader its two ends.
pub start_reader-IsWired :
    (k : Kernel) (reader_binary : Bytes) (t : Table) (s : Started)
    → HasStdio t
    → start_reader k reader_binary t ≡ ok s
    → IsWired t s
unfolding start_reader
start_reader-IsWired k reader_binary t s std h =
    let ((r, w, t₁), e₁, h₁) = bind-eq-ok (pipe k stdin_pipe t) _ h in
    let ((r', w', t₂), e₂, h₂) = bind-eq-ok (pipe k report_pipe t₁) _ h₁ in
    let (c, e₃, h₃) = bind-eq-ok (spawn k reader_binary (wire r 3 w' 5) t₂) _ h₂ in
    let p = pipe-IsPiped k stdin_pipe t t₁ r w e₁ in
    let q = pipe-IsPiped k report_pipe t₁ t₂ r' w' e₂ in
    let next = IsPiped-next stdin_pipe report_pipe t t₁ t₂ r w r' w' p q in
    let low = above t t₁ t₂ c r w r' w' std p q in
    let at_r = IsPiped-below report_pipe t₁ t₂ r' w' r q (omega (arith, p.r_lt_w, next)) ∙ p.at_r in
    let handed =
      spawn-IsHanded r 3 w' 5 _ _ t₂ at_r q.at_w (omega (arith, low, next, p.r_lt_w, q.r_lt_w))
        (omega arith) k reader_binary c e₃ in
    subst (IsWired t) (ok-injective h₃) (handed-IsWired t t₁ t₂ c r w r' w' std p q handed)
