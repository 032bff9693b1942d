-- ===== src/Orchestrator/Pipes.antt =====
-- What making pipes, duplicating and closing do to a table.
use seck.Base.{ℕ, ◌<◌, ◌≡◌, ◌≢◌, subst, arith, Option, none, some}
use seck.Base.Outcome.{ok, bind-eq-ok, ok-injective}
use seck.Orchestrator.Descriptors.{
  read_end, write_end, inherited, Table, set, Kernel, OrchestratorError, nix, or_error, pipe,
}

or_error-eq-ok {ℓ} :
    {A : Type ℓ} (e : OrchestratorError) (o : Option A) {a : A} → or_error e o ≡ ok a → o ≡ some a
or_error-eq-ok e none h = cc
or_error-eq-ok e (some b) h = cc

-- Standard input, output and error are open.
abbrev pub HasStdio : Table → Type 0
HasStdio t = (n : ℕ) → n < 3 → t n ≢ none

-- `u` is `t` with both ends of the pipe `id` in the lowest free numbers.
pub record IsPiped (id : ℕ) (t u : Table) (r w : ℕ) : Type 0 where
  pub r_lt_w : r < w
  pub r_free : t r ≡ none
  pub w_free : t w ≡ none
  pub filled : (m : ℕ) → m < w → u m ≢ none
  pub at_r : u r ≡ some (inherited (read_end id))
  pub at_w : u w ≡ some (inherited (write_end id))
  pub elsewhere : (n : ℕ) → n ≢ r → n ≢ w → u n ≡ t n

module _ (k : Kernel) where
  module _ (id : ℕ) (t : Table) (r w : ℕ) (e₁ : k.lowest t ≡ some r)
      (e₂ : k.lowest (set t r (some (inherited (read_end id)))) ≡ some w) where
    abbrev half : Table
    half = set t r (some (inherited (read_end id)))

    w_ne_r : w ≢ r
    w_ne_r h = ground (arith, k.lowest_free half w e₂, h)

    not_lt : ¬ (w < r)
    not_lt h = k.lowest_least t r e₁ w h (ground (arith, k.lowest_free half w e₂, w_ne_r))

    half-filled : (m : ℕ) → m < w → half m ≢ none
    half-filled m h = k.lowest_least half w e₂ m h

    pub lowest-IsPiped : IsPiped id t (set half w (some (inherited (write_end id)))) r w
    lowest-IsPiped = record {
      r_lt_w = ground (arith, w_ne_r, not_lt);
      r_free = k.lowest_free t r e₁;
      w_free = ground (arith, k.lowest_free half w e₂, w_ne_r);
      filled = λ m h. ground (arith, half-filled m h);
      at_r = ground (arith, w_ne_r);
      at_w = ground arith;
      elsewhere = λ n a b. ground arith;
    }

  pub pipe-IsPiped :
      (id : ℕ) (t u : Table) (r w : ℕ) → pipe k id t ≡ ok (r, w, u) → IsPiped id t u r w
  unfolding pipe
  pipe-IsPiped id t u r w h =
      let (r', e₁, h₁) = bind-eq-ok (or_error nix (k.lowest t)) _ h in
      let (w', e₂, h₂) = bind-eq-ok (or_error nix (k.lowest _)) _ h₁ in
      subst (λ (x : ℕ × ℕ × Table). IsPiped id t x.2 x.0 x.1) (ok-injective h₂)
        (lowest-IsPiped id t r' w' (or_error-eq-ok nix _ e₁) (or_error-eq-ok nix _ e₂))

-- The next pipe lies above.
pub IsPiped-next :
    (id jd : ℕ) (t u v : Table) (r w r' w' : ℕ) → IsPiped id t u r w → IsPiped jd u v r' w' → w < r'
IsPiped-next id jd t u v r w r' w' p q = ground (arith, p.filled r', p.at_w, q.r_free)

-- Making a pipe leaves alone what lies below it.
pub IsPiped-below : (id : ℕ) (t u : Table) (r w n : ℕ) → IsPiped id t u r w → n < r → u n ≡ t n
IsPiped-below id t u r w n p h = p.elsewhere n (omega arith) (omega (arith, p.r_lt_w))
