-- ===== src/Base/Packing.antt =====
-- Texts packed into one text without line breaks, and unpacked, for examples of documented formats.
use seck.Base.{
  ℕ, ◌+◌, ◌-◌, ◌≡◌, refl, ap, ◌∙◌, arith, List, [], ◌∷◌, ◌++◌, if◌then◌else◌, ◌==◌, All-append,
  Text,
}
use seck.Base.Strings.{HasNoBreak, trim_end, is_whitespace}

-- A text, each character raised by 20, with a 0 behind it.
unfoldable pub enc : Text → Text
enc [] = 0 ∷ []
enc (c ∷ t) = (c + 20) ∷ enc t

unfoldable pub to_head : ℕ → List Text → List Text
to_head c [] = (c ∷ []) ∷ []
to_head c (t ∷ ts) = (c ∷ t) ∷ ts

unfoldable pub split : Text → List Text
unfolding to_head
split [] = []
split (c ∷ s) = let rest = split s in if c == 0 then [] ∷ rest else to_head (c - 20) rest

split-enc : (t s : Text) → split (enc t ++ s) ≡ t ∷ split s
unfolding split enc to_head
split-enc [] s = refl
split-enc (c ∷ t) s = rw (split-enc t s) (ground arith)

unfoldable pub enc_all : List Text → Text
unfolding enc
enc_all [] = []
enc_all (t ∷ ts) = enc t ++ enc_all ts

pub split-enc_all : (ts : List Text) → split (enc_all ts) ≡ ts
unfolding split enc_all
split-enc_all [] = refl
split-enc_all (t ∷ ts) = split-enc t (enc_all ts) ∙ ap (◌∷◌ t) (split-enc_all ts)

pub enc_all-HasNoBreak : (ts : List Text) → HasNoBreak (enc_all ts)
unfolding enc_all enc
enc_all-HasNoBreak [] = tt
enc_all-HasNoBreak (t ∷ ts) = All-append _ (enc t) (enc_all ts) (one t) (enc_all-HasNoBreak ts)
  where
    one : (t : Text) → HasNoBreak (enc t)
    one [] = ((refl, refl), tt)
    one (c ∷ t) = ((ground arith, ground arith), one t)

-- A packed list of texts ends in 0, so that nothing is trimmed.
trim_end-step : (c d : ℕ) (s : Text) → trim_end (d ∷ s) ≡ d ∷ s → trim_end (c ∷ d ∷ s) ≡ c ∷ d ∷ s
unfolding trim_end
trim_end-step c d s h = rw (h, trim_end) refl

trim_end-enc : (t s : Text) → trim_end s ≡ s → trim_end (enc t ++ s) ≡ enc t ++ s
unfolding enc trim_end is_whitespace
trim_end-enc [] [] h = refl
trim_end-enc [] (d ∷ s) h = trim_end-step 0 d s h
trim_end-enc (c ∷ []) s h = trim_end-step (c + 20) 0 s (trim_end-enc [] s h)
trim_end-enc (c ∷ d ∷ t) s h =
    trim_end-step (c + 20) (d + 20) (enc t ++ s) (trim_end-enc (d ∷ t) s h)

pub trim_end-enc_all : (ts : List Text) → trim_end (enc_all ts) ≡ enc_all ts
unfolding enc_all trim_end
trim_end-enc_all [] = refl
trim_end-enc_all (t ∷ ts) = trim_end-enc t (enc_all ts) (trim_end-enc_all ts)
