-- ===== src/Base/Tags.antt =====
-- How many tags a text can open in a page: its `<`.
use seck.Base.{
  ℕ, zero, suc, ◌+◌, ◌%◌, ◌/◌, ◌≡◌, refl, arith, List, [], ◌∷◌, ◌++◌, ltb, ◌==◌, if◌then◌else◌,
  Bool-cases, inl, inr, Text,
}
use seck.Base.Strings.{decimal, decimal_loop, flatten}

-- The number of `<` in a text.
unfoldable pub tags : Text → ℕ
tags [] = 0
tags (c ∷ s) = let rest = tags s in if c == b'<' then suc rest else rest

pub tags-append : (s t : Text) → tags (s ++ t) ≡ tags s + tags t
unfolding tags
tags-append [] t = omega arith
tags-append (c ∷ s) t = ground (arith, tags-append s t)

unfoldable pub tags_all : List Text → ℕ
tags_all [] = 0
tags_all (t ∷ ts) = tags t + tags_all ts

pub tags-flatten : (ts : List Text) → tags (flatten ts) ≡ tags_all ts
unfolding tags_all tags
tags-flatten [] = refl
tags-flatten (t ∷ ts) = omega (arith, tags-append t (flatten ts), tags-flatten ts)

tags-decimal_loop : (fuel n : ℕ) (acc : Text) → tags acc ≡ 0 → tags (decimal_loop fuel n acc) ≡ 0
unfolding decimal_loop tags
tags-decimal_loop zero n acc h = h
tags-decimal_loop (suc fuel) n acc h = elim (Bool-cases (ltb n 10)) [
  | inl last ↦ rw last (digit n)
  | inr more ↦ rw more (tags-decimal_loop fuel (n / 10) ((b'0' + n % 10) ∷ acc) (digit n))
]
  where
    digit : (n : ℕ) → tags ((b'0' + n % 10) ∷ acc) ≡ 0
    digit n = ground arith

pub tags-decimal : (n : ℕ) → tags (decimal n) ≡ 0
unfolding decimal tags
tags-decimal n = tags-decimal_loop (n + 1) n [] refl
