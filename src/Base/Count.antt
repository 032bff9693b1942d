-- ===== src/Base/Count.antt =====
-- How often a character stands in a text.
use seck.Base.{ℕ, suc, ◌+◌, ◌≡◌, refl, arith, List, [], ◌∷◌, ◌++◌, ◌==◌, if◌then◌else◌, Text}
use seck.Base.Strings.{flatten}

unfoldable pub count : ℕ → Text → ℕ
count c [] = 0
count c (d ∷ s) = let rest = count c s in if d == c then suc rest else rest

pub count-append : (c : ℕ) (s t : Text) → count c (s ++ t) ≡ count c s + count c t
unfolding count
count-append c [] t = omega arith
count-append c (d ∷ s) t = ground (arith, count-append c s t)

unfoldable pub count_all : ℕ → List Text → ℕ
count_all c [] = 0
count_all c (t ∷ ts) = count c t + count_all c ts

pub count-flatten : (c : ℕ) (ts : List Text) → count c (flatten ts) ≡ count_all c ts
unfolding count count_all
count-flatten c [] = refl
count-flatten c (t ∷ ts) = omega (arith, count-append c t (flatten ts), count-flatten c ts)
