-- ===== src/Base/Strings.antt =====
-- Texts as code points: literals, and what the source uses of Rust's `str` and `format!`.
use Prim.Native.Char.{code}
use Prim.Native.String.{String}
use seck.Base.{
  ◌≡◌, refl, sym, ap, ◌∙◌, append-nil, append_assoc, All, ℕ, zero, suc, ◌+◌, ◌-◌, ◌*◌, ◌/◌, ◌%◌,
  Bool, true, false, ◌&&◌, ◌||◌, Option, none, some, List, [], ◌∷◌, ◌++◌, ltb, leb, ◌==◌,
  if◌then◌else◌, Text,
}

-- The code points of a literal.
abbrev pub codes : String → Text
codes String.[] = []
codes (String.◌∷◌ c s) = code c ∷ codes s

unfoldable pub decimal_loop : ℕ → ℕ → Text → Text
decimal_loop zero n acc = acc
decimal_loop (suc fuel) n acc =
    let digits = (b'0' + n % 10) ∷ acc in
    let more = decimal_loop fuel (n / 10) digits in if ltb n 10 then digits else more

-- `{}` of an unsigned integer. A number has fewer digits than one more than itself.
unfoldable pub decimal : ℕ → Text
unfolding decimal_loop
decimal n = decimal_loop (n + 1) n []

-- `parts.join(sep)`
unfoldable pub join : Text → List Text → Text
join sep [] = []
join sep (t ∷ []) = t
join sep (t ∷ ts) = t ++ (sep ++ join sep ts)

abbrev pub flatten : List Text → Text
flatten [] = []
flatten (t ∷ ts) = t ++ flatten ts

-- `text.strip_prefix(prefix)`
unfoldable pub strip_prefix : Text → Text → Option Text
strip_prefix [] s = some s
strip_prefix (p ∷ ps) [] = none
strip_prefix (p ∷ ps) (c ∷ s) = if p == c then strip_prefix ps s else none

unfoldable pub starts_with : Text → Text → Bool
starts_with [] s = true
starts_with (p ∷ ps) [] = false
starts_with (p ∷ ps) (c ∷ s) = p == c && starts_with ps s

-- `haystack.contains(needle)`; the empty needle is found everywhere.
unfoldable pub contains : Text → Text → Bool
unfolding starts_with
contains needle [] = starts_with needle []
contains needle (c ∷ s) = starts_with needle (c ∷ s) || contains needle s

-- `char::is_whitespace`: the property White_Space
unfoldable pub is_whitespace : ℕ → Bool
is_whitespace c =
    (leb 9 c && leb c 13)
    || c == 0x20
    || c == 0x85
    || c == 0xA0
    || c == 0x1680
    || (leb 0x2000 c && leb c 0x200A)
    || c == 0x2028
    || c == 0x2029
    || c == 0x202F
    || c == 0x205F
    || c == 0x3000

unfoldable pub trim_start : Text → Text
unfolding is_whitespace
trim_start [] = []
trim_start (c ∷ s) = let rest = trim_start s in if is_whitespace c then rest else c ∷ s

unfoldable pub trim_end : Text → Text
unfolding is_whitespace
trim_end [] = []
trim_end (c ∷ s) = elim (trim_end s) [
  | [] ↦ if is_whitespace c then [] else c ∷ []
  | d ∷ t ↦ c ∷ d ∷ t
]

unfoldable pub trim : Text → Text
unfolding trim_start trim_end
trim s = trim_end (trim_start s)

-- What stands behind the first `pattern`: `s[s.find(pattern)? + pattern.len()..]`
unfoldable pub after_first : Text → Text → Option Text
unfolding strip_prefix
after_first pattern [] = strip_prefix pattern []
after_first pattern (c ∷ s) = elim (strip_prefix pattern (c ∷ s)) [
  | some rest ↦ some rest
  | none ↦ after_first pattern s
]

-- What stands before the first `c`: `s[..s.find(c)?]`
unfoldable pub before_first : ℕ → Text → Option Text
before_first c [] = none
before_first c (d ∷ s) = elim (c == d) [
  | true ↦ some []
  | false ↦ elim (before_first c s) [ none ↦ none | some t ↦ some (d ∷ t) ]
]

-- `s.split(c).next()`, which is never `None`
unfoldable pub first_part : ℕ → Text → Text
first_part c [] = []
first_part c (d ∷ s) = let rest = first_part c s in if c == d then [] else d ∷ rest

-- The value of a string of decimal digits, one at least.
digits : ℕ → Text → Option ℕ
digits n [] = some n
digits n (c ∷ s) =
    let rest = digits (n * 10 + (c - b'0')) s in if leb b'0' c && leb c b'9' then rest else none

unfoldable pub parse_digits : Text → Option ℕ
unfolding digits
parse_digits [] = none
parse_digits (c ∷ s) = digits 0 (c ∷ s)

-- The lines of a text, without their ends, which are `\n` or `\r\n`. A last line may have none.
strip_cr : Text → Text
strip_cr [] = []
strip_cr (c ∷ []) = if c == b'\r' then [] else c ∷ []
strip_cr (c ∷ d ∷ s) = c ∷ strip_cr (d ∷ s)

last_line : Text → List Text
last_line [] = []
last_line (c ∷ s) = (c ∷ s) ∷ []

lines_from : Text → Text → List Text
lines_from line [] = last_line line
lines_from line (c ∷ s) = elim (c == b'\n') [
  | true ↦ strip_cr line ∷ lines_from [] s
  | false ↦ lines_from (line ++ c ∷ []) s
]

unfoldable pub lines : Text → List Text
unfolding lines_from last_line strip_cr
lines = lines_from []

-- No `\n` and no `\r`.
abbrev pub HasNoBreak : Text → Type 0
HasNoBreak s = All (λ c. ((c == b'\n') ≡ false) × ((c == b'\r') ≡ false)) s

-- The lines, each with its end.
abbrev pub unlines : List Text → Text
unlines [] = []
unlines (l ∷ ls) = l ++ (b'\n' ∷ unlines ls)

pub unlines-append : (ls ms : List Text) → unlines (ls ++ ms) ≡ unlines ls ++ unlines ms
unlines-append [] ms = refl
unlines-append (l ∷ ls) ms =
    ap (λ t. l ++ (b'\n' ∷ t)) (unlines-append ls ms)
    ∙ sym (append_assoc l (b'\n' ∷ unlines ls) (unlines ms))

strip_cr-HasNoBreak : (s : Text) → HasNoBreak s → strip_cr s ≡ s
unfolding strip_cr
strip_cr-HasNoBreak [] h = refl
strip_cr-HasNoBreak (c ∷ []) h = rw h.0.1 refl
strip_cr-HasNoBreak (c ∷ d ∷ s) h = ap (◌∷◌ c) (strip_cr-HasNoBreak (d ∷ s) h.1)

lines_from-append :
    (line l s : Text)
    → HasNoBreak l
    → lines_from line (l ++ (b'\n' ∷ s)) ≡ strip_cr (line ++ l) ∷ lines_from [] s
unfolding lines_from
lines_from-append line [] s h = rw (append-nil line) refl
lines_from-append line (c ∷ l) s h =
    rw (h.0.0, lines_from)
      (lines_from-append (line ++ c ∷ []) l s h.1
        ∙ ap (λ t. strip_cr t ∷ lines_from [] s) (append_assoc line (c ∷ []) l))

pub lines-unlines : (ls : List Text) → All HasNoBreak ls → lines (unlines ls) ≡ ls
unfolding lines
lines-unlines [] h = refl
lines-unlines (l ∷ ls) h =
    lines_from-append [] l (unlines ls) h.0
    ∙ rw (strip_cr-HasNoBreak l h.0) (ap (◌∷◌ l) (lines-unlines ls h.1))

pub lines-unlines_append :
    (ls : List Text) (s : Text) → All HasNoBreak ls → lines (unlines ls ++ s) ≡ ls ++ lines s
unfolding lines
lines-unlines_append [] s h = refl
lines-unlines_append (l ∷ ls) s h =
    ap (lines_from []) (append_assoc l (b'\n' ∷ unlines ls) s)
    ∙ lines_from-append [] l (unlines ls ++ s) h.0
    ∙ rw (strip_cr-HasNoBreak l h.0) (ap (◌∷◌ l) (lines-unlines_append ls s h.1))
