-- ===== src/Wire/Pipe.antt =====
-- `write_to_sandbox_pipe` of crates/seck-fd/src/lib.rs, the sole sink of tainted bytes. The kernel's
-- `write` is a parameter: what the k-th call answers. A call never takes more than it is given.
use Prim.Native.Nat.{min}
use mathlib.Core.Path.{subst}
use seck.Base.{
  ℕ, zero, suc, ◌+◌, ◌≤◌, ◌<◌, ◌≡◌, ◌≢◌, refl, sym, ap, ◌∙◌, arith, ◌==◌, if◌then◌else◌, Bool-cases,
  Option-cases, inl, inr, Option, none, some, [], ◌∷◌, ◌++◌, append-nil, append_assoc, length, take,
  drop, length-append, length-drop, take-append-drop, Bytes,
}
use seck.Base.Outcome.{Result, ok, err}

-- `no_fuel` is no value of the program: see `write_to_sandbox_pipe-IsSent`.
pub data FdError : Type 0 where
  short_write : ℕ → ℕ → FdError
  io : FdError
  no_fuel : FdError

-- The calls of `write` made so far, and the bytes that they took.
pub record Pipe : Type 0 where
  pub calls : ℕ
  pub sent : Bytes

-- `none` is an errno, `some n` takes at most `n` bytes.
abbrev pub Kernel : Type 0
Kernel = ℕ → Option ℕ

abbrev pub Write : Type 0
Write = Pipe → Result FdError (Unit {0}) × Pipe

infixl 5 ◌>>◌
abbrev pub ◌>>◌ : Write → Write → Write
◌>>◌ m k p = let (r, q) = m p in elim r [ ok _ ↦ k q | err e ↦ (err e, q) ]

abbrev called : Pipe → Pipe
called p = record p { calls = p.calls + 1 }

abbrev took : ℕ → Bytes → Pipe → Pipe
took n rest p = record { calls = p.calls + 1; sent = p.sent ++ take n rest }

module _ (kernel : Kernel) where
  unfoldable pub write_loop : ℕ → ℕ → ℕ → Bytes → Write
  write_loop fuel expected written [] p = (ok tt, p)
  write_loop zero expected written (b ∷ rest) p = (err no_fuel, p)
  write_loop (suc fuel) expected written (b ∷ rest) p = elim (kernel p.calls) [
    | none ↦ (err io, called p)
    | some room ↦
        let n = min room (suc (length rest)) in
        let next =
          write_loop fuel expected (written + n) (drop n (b ∷ rest)) (took n (b ∷ rest) p) in
        if n == 0 then (err (short_write written expected), called p) else next
  ]

  -- Each call that goes on takes a byte at least, so the length is fuel enough.
  unfoldable pub write_to_sandbox_pipe : Bytes → Write
  unfolding write_loop
  write_to_sandbox_pipe inner = write_loop (length inner) (length inner) 0 inner

-- What is left of `d` is not empty.
pub record IsCut (d : Bytes) (p q : Pipe) : Type 0 where
  pub front : Bytes
  pub unsent : Bytes
  pub splits : front ++ unsent ≡ d
  pub sent : q.sent ≡ p.sent ++ front
  pub unfinished : 0 < length unsent

-- `d` was sent whole, or the action failed after a proper prefix of it.
abbrev pub IsSent : Bytes → Pipe → Result FdError (Unit {0}) × Pipe → Type 0
IsSent d p (ok _, q) = q.sent ≡ p.sent ++ d
IsSent d p (err e, q) = IsCut d p q × (e ≢ no_fuel)

-- What was sent before `d` may be counted with it.
IsSent-front :
    (a d : Bytes) (p q : Pipe) (r : Result FdError (Unit {0}) × Pipe)
    → q.sent ≡ p.sent ++ a
    → IsSent d q r
    → IsSent (a ++ d) p r
IsSent-front a d p q (ok u, t) e h = h ∙ rw (e, append_assoc)
IsSent-front a d p q (err x, t) e (c, ne) = (
  record {
    front = a ++ c.front;
    unsent = c.unsent;
    splits = append_assoc a c.front c.unsent ∙ ap (λ t. a ++ t) c.splits;
    sent = c.sent ∙ rw (e, append_assoc);
    unfinished = c.unfinished;
  },
  ne,
)

IsCut-here : (d : Bytes) (p q : Pipe) → 0 < length d → q.sent ≡ p.sent → IsCut d p q
IsCut-here d p q h e = record {
  front = [];
  unsent = d;
  splits = refl;
  sent = e ∙ sym (append-nil p.sent);
  unfinished = h;
}

-- Run from any state, `m` sends `d` or fails after a proper prefix of it.
pub record Sends (d : Bytes) (m : Write) : Type 0 where
  pub at : (p : Pipe) → IsSent d p (m p)

then-IsSent :
    (a d : Bytes) (k : Write) (p : Pipe) (r : Result FdError (Unit {0}) × Pipe)
    → Sends d k
    → IsSent a p r
    → IsSent (a ++ d) p (elim r.0 [ ok _ ↦ k r.1 | err e ↦ (err e, r.1) ])
then-IsSent a d k p (ok u, q) s h = IsSent-front a d p q (k q) h (s.at q)
then-IsSent a d k p (err e, q) s (c, ne) = (
  record {
    front = c.front;
    unsent = c.unsent ++ d;
    splits = sym (append_assoc c.front c.unsent d) ∙ ap (λ t. t ++ d) c.splits;
    sent = c.sent;
    unfinished = rw length-append (omega (arith, c.unfinished));
  },
  ne,
)

-- Two writes in turn send both byte strings, or a proper prefix of the two.
pub Sends->> : (m k : Write) (a d : Bytes) → Sends a m → Sends d k → Sends (a ++ d) (m >> k)
Sends->> m k a d hm hk = record { at = λ p. then-IsSent a d k p (m p) hk (hm.at p) }

-- One answered call: nothing taken is a short write, else the rest `r` of the loop goes on.
answer-IsSent :
    (n : ℕ) (d : Bytes) (p : Pipe) (e : FdError) (r : Result FdError (Unit {0}) × Pipe)
    → 0 < length d
    → e ≢ no_fuel
    → (n ≢ 0 → IsSent (drop n d) (took n d p) r)
    → IsSent d p (if n == 0 then (err e, called p) else r)
answer-IsSent n d p e r pos ne ih = elim (Bool-cases (n == 0)) [
  | inl stop ↦ rw stop (IsCut-here d p (called p) pos refl, ne)
  | inr go ↦ rw go (
      subst (λ t. IsSent t p r) (take-append-drop n d)
        (IsSent-front (take n d) (drop n d) p (took n d p) r refl (ih (ground arith))))
]

module _ (kernel : Kernel) where
  write_loop-IsSent :
      (fuel expected written : ℕ) (rest : Bytes) (p : Pipe)
      → length rest ≤ fuel
      → IsSent rest p (write_loop kernel fuel expected written rest p)
  unfolding write_loop
  write_loop-IsSent fuel expected written [] p h = sym (append-nil p.sent)
  write_loop-IsSent zero expected written (b ∷ rest) p h = absurd (omega arith)
  write_loop-IsSent (suc fuel) expected written (b ∷ rest) p h =
      elim (Option-cases (kernel p.calls)) [
        | inl e ↦
            rw (e, write_loop) (IsCut-here (b ∷ rest) p (called p) (omega arith) refl, λ x. cc)
        | inr (room, e) ↦
            let n : ℕ = min room (suc (length rest)) in
            rw (e, write_loop)
              (answer-IsSent n (b ∷ rest) p (short_write written expected)
                (write_loop kernel fuel expected (written + n) (drop n (b ∷ rest))
                  (took n (b ∷ rest) p))
                (omega arith) (λ x. cc)
                λ taken.
                  write_loop-IsSent fuel expected (written + n) (drop n (b ∷ rest))
                    (took n (b ∷ rest) p) (omega (arith, length-drop n (b ∷ rest))))
      ]

  -- Whatever the kernel answers, the sink sends all of `inner`, or fails after a proper prefix.
  pub write_to_sandbox_pipe-Sends :
      (inner : Bytes) → Sends inner (write_to_sandbox_pipe kernel inner)
  unfolding write_to_sandbox_pipe
  write_to_sandbox_pipe-Sends inner = record {
    at = λ p. write_loop-IsSent (length inner) (length inner) 0 inner p (omega arith);
  }
