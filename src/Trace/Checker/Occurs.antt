-- ===== src/Trace/Checker/Occurs.antt =====
-- `contains_subsequence` decides whether a byte string occurs in another.
use seck.Base.{
  ◌≤◌, ◌<◌, ◌≡◌, ◌≢◌, ◌↔◌, refl, sym, ap, ◌∙◌, arith, Bool, true, false, [], ◌∷◌, ◌++◌, ◌||◌,
  Bool-cases, inl, inr, append_assoc, length, length-append, take, drop, take-append,
  take-append-drop, equal, equal_iff, Bytes,
}
use seck.Trace.Checker.{any_window, contains_subsequence}

-- `needle` is not empty, and stands somewhere in `s`.
pub record Occurs (needle s : Bytes) : Type 0 where
  pub before : Bytes
  pub after : Bytes
  pub splits : s ≡ before ++ (needle ++ after)
  pub some_byte : needle ≢ []

pub Occurs-append : (needle a s b : Bytes) → Occurs needle s → Occurs needle (a ++ (s ++ b))
Occurs-append needle a s b o = record {
  before = a ++ o.before;
  after = o.after ++ b;
  splits = rw o.splits (simp append_assoc);
  some_byte = o.some_byte;
}

any_window_sound : (needle s : Bytes) → needle ≢ [] → any_window needle s ≡ true → Occurs needle s
unfolding any_window
any_window_sound needle [] ne h = cc
any_window_sound needle (b ∷ s) ne h =
    elim (Bool-cases (equal (take (length needle) (b ∷ s)) needle)) [
      | inl here ↦ record {
        before = [];
        after = drop (length needle) (b ∷ s);
        splits =
            sym (take-append-drop (length needle) (b ∷ s))
            ∙ ap (λ t. t ++ drop (length needle) (b ∷ s)) ((equal_iff _ _).0 here);
        some_byte = ne;
      }
      | inr later ↦
          let o = any_window_sound needle s ne (rw (later, any_window) at h) in
          record {
            before = b ∷ o.before;
            after = o.after;
            splits = ap (◌∷◌ b) o.splits;
            some_byte = ne;
          }
    ]

any_window_here : (needle after : Bytes) → needle ≢ [] → any_window needle (needle ++ after) ≡ true
unfolding any_window
any_window_here [] after ne = absurd (ne refl)
any_window_here (n ∷ needle) after ne = rw (take-append needle after) (rw (equal_self (n ∷ needle)))
  where
    equal_self : (s : Bytes) → equal s s ≡ true
    equal_self s = (equal_iff s s).1 refl

any_window_complete :
    (needle before after : Bytes)
    → needle ≢ []
    → any_window needle (before ++ (needle ++ after)) ≡ true
unfolding any_window
any_window_complete needle [] after ne = any_window_here needle after ne
any_window_complete needle (b ∷ before) after ne =
    rw (any_window_complete needle before after ne) (or_true _)
  where
    or_true : (b : Bool) → (b || true) ≡ true
    or_true true = refl
    or_true false = refl

any_window_of :
    (s needle : Bytes) → contains_subsequence s needle ≡ true → any_window needle s ≡ true
unfolding contains_subsequence
any_window_of s needle h = ground arith

contains_of :
    (s needle : Bytes)
    → 0 < length needle
    → length needle ≤ length s
    → any_window needle s ≡ true
    → contains_subsequence s needle ≡ true
unfolding contains_subsequence
contains_of s needle pos fits h = ground arith

Occurs-length : (needle s : Bytes) → Occurs needle s → length needle ≤ length s
Occurs-length needle s o =
    rw o.splits
      (omega (arith, length-append o.before (needle ++ o.after), length-append needle o.after))

contains_nil : (s : Bytes) → contains_subsequence s [] ≡ false
unfolding contains_subsequence
contains_nil s = refl

-- The search finds exactly the byte strings that occur; the empty one never does.
pub contains_subsequence_iff :
    (s needle : Bytes) → (contains_subsequence s needle ≡ true) ↔ Occurs needle s
contains_subsequence_iff s [] = (λ h. cc (contains_nil s), λ o. absurd (o.some_byte refl))
contains_subsequence_iff s (n ∷ needle) = (
  λ h. any_window_sound (n ∷ needle) s (λ e. cc) (any_window_of s (n ∷ needle) h),
  λ o.
      contains_of s (n ∷ needle) (omega arith) (Occurs-length (n ∷ needle) s o)
        (rw o.splits (any_window_complete (n ∷ needle) o.before o.after (λ e. cc))),
)
