-- ===== src/Report/Sanitize/Automaton.antt =====
-- The loops of `sanitize` as one automaton that reads a character at a time.
use seck.Base.{
  ℕ, zero, suc, ◌≤◌, ◌≡◌, refl, ◌∙◌, arith, [], ◌∷◌, ◌++◌, ◌==◌, if◌then◌else◌, Bool-cases, inl,
  inr, length, drop, length-drop, sym, Text,
}
use seck.Report.Sanitize.{
  esc, is_dropped, ends_csi, skip_csi, skip_osc, after_escape, sanitize_loop, sanitize,
}

-- `escape`: behind ESC; `csi`, `osc`: inside a sequence; `closing`: behind the ESC that ends an OSC.
pub data Mode : Type 0 where
  plain escape csi osc closing : Mode

unfoldable pub plain_next : ℕ → Mode
plain_next c = if c == esc then escape else plain

unfoldable pub plain_out : ℕ → Text
plain_out c = if c == esc then [] else if is_dropped c then [] else c ∷ []

unfoldable pub next : Mode → ℕ → Mode
unfolding plain_next
next plain c = plain_next c
next escape c = if c == b'[' then csi else if c == b']' then osc else plain_next c
next csi c = if ends_csi c then plain else csi
next osc c = if c == 0x07 then plain else if c == esc then closing else osc
next closing c = plain

unfoldable pub out : Mode → ℕ → Text
unfolding plain_out
out plain c = plain_out c
out escape c = if c == b'[' then [] else if c == b']' then [] else plain_out c
out _ c = []

unfoldable pub scan : Mode → Text → Text
scan m [] = []
scan m (c ∷ cs) = out m c ++ scan (next m c) cs

skip_csi-scan : (cs : Text) → scan csi cs ≡ scan plain (skip_csi cs)
unfolding scan skip_csi next out
skip_csi-scan [] = refl
skip_csi-scan (c ∷ cs) = ground (arith, skip_csi-scan cs)

closing-scan : (cs : Text) → scan closing cs ≡ scan plain (drop 1 cs)
unfolding scan next out
closing-scan [] = refl
closing-scan (c ∷ cs) = refl

skip_osc-scan : (cs : Text) → scan osc cs ≡ scan plain (skip_osc cs)
unfolding scan skip_osc next out
skip_osc-scan [] = refl
skip_osc-scan (c ∷ cs) = ground (arith, skip_osc-scan cs, closing-scan cs)

after_escape-scan : (cs : Text) → scan escape cs ≡ scan plain (after_escape cs)
unfolding scan next out after_escape
after_escape-scan [] = refl
after_escape-scan (c ∷ cs) = ground (arith, skip_csi-scan cs, skip_osc-scan cs)

length-skip_csi : (cs : Text) → length (skip_csi cs) ≤ length cs
unfolding skip_csi
length-skip_csi [] = omega arith
length-skip_csi (c ∷ cs) = ground (arith, length-skip_csi cs)

length-skip_osc : (cs : Text) → length (skip_osc cs) ≤ length cs
unfolding skip_osc
length-skip_osc [] = omega arith
length-skip_osc (c ∷ cs) = ground (arith, length-skip_osc cs, length-drop 1 cs)

length-after_escape : (cs : Text) → length (after_escape cs) ≤ length cs
unfolding after_escape
length-after_escape [] = omega arith
length-after_escape (c ∷ cs) = ground (arith, length-skip_csi cs, length-skip_osc cs)

scan-esc : (cs : Text) → scan plain (esc ∷ cs) ≡ scan plain (after_escape cs)
unfolding scan next out
scan-esc cs = after_escape-scan cs

sanitize_loop-scan :
    (fuel : ℕ) (cs : Text) → length cs ≤ fuel → sanitize_loop fuel cs ≡ scan plain cs
unfolding sanitize_loop scan next out
sanitize_loop-scan zero [] h = refl
sanitize_loop-scan zero (c ∷ cs) h = absurd (omega arith)
sanitize_loop-scan (suc fuel) [] h = refl
sanitize_loop-scan (suc fuel) (c ∷ cs) h = elim (Bool-cases (c == esc)) [
  | inl e ↦ rw e (
      sanitize_loop-scan fuel (after_escape cs) (omega (arith, length-after_escape cs))
      ∙ sym (after_escape-scan cs))
  | inr n ↦ ground (arith, sanitize_loop-scan fuel cs)
]

-- `sanitize` is the automaton, run from the plain mode.
pub sanitize-scan : (input : Text) → sanitize input ≡ scan plain input
unfolding sanitize
sanitize-scan input = sanitize_loop-scan (length input) input (omega arith)
