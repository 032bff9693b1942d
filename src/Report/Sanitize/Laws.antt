-- ===== src/Report/Sanitize/Laws.antt =====
-- What the output of `sanitize` holds, and what happens to each kind of input.
use seck.Base.{
  ℕ, ◌<◌, ◌≡◌, ◌≢◌, ◌⊎◌, refl, ap, sym, ◌∙◌, arith, Bool, true, false, not, ◌&&◌, [], ◌∷◌, ◌++◌,
  ◌==◌, if◌then◌else◌, Bool-cases, inl, inr, append-nil, Text, All, All-append,
}
use seck.Report.Sanitize.{esc, is_dropped, ends_csi, sanitize}
use seck.Report.Sanitize.Automaton.{
  Mode, plain, escape, csi, osc, plain_next, plain_out, next, out, scan, sanitize-scan,
}

-- No control character but newline and tab, no bidirectional override, no zero-width character.
pub record IsSafe (c : ℕ) : Type 0 where
  pub no_c0 : c < 0x20 → (c ≡ b'\n') ⊎ (c ≡ b'\t')
  pub no_c1 : (c < 0x7f) ⊎ (0x9f < c)
  pub no_override : (c < 0x202a) ⊎ (0x202e < c)
  pub no_isolate : (c < 0x2066) ⊎ (0x2069 < c)
  pub no_space : (c ≢ 0x200b) × (c ≢ 0x200c) × (c ≢ 0x200d) × (c ≢ 0xfeff)

IsSafe-of_kept : (c : ℕ) → is_dropped c ≡ false → IsSafe c
unfolding is_dropped
IsSafe-of_kept c h = ground arith

pub kept_of_IsSafe : (c : ℕ) → IsSafe c → is_dropped c ≡ false
unfolding is_dropped
kept_of_IsSafe c h = ground arith

plain_out-IsSafe : (c : ℕ) → All IsSafe (plain_out c)
unfolding plain_out
plain_out-IsSafe c = elim (Bool-cases (c == esc)) [
  | inl e ↦ rw e tt
  | inr e ↦ elim (Bool-cases (is_dropped c)) [
    | inl d ↦ rw (e, d) tt
    | inr d ↦ rw (e, d) (IsSafe-of_kept c d, tt)
  ]
]

if-All : (b : Bool) (s t : Text) → All IsSafe s → All IsSafe t → All IsSafe (if b then s else t)
if-All true s t hs ht = hs
if-All false s t hs ht = ht

out-IsSafe : (m : Mode) (c : ℕ) → All IsSafe (out m c)
unfolding out
out-IsSafe plain c = plain_out-IsSafe c
out-IsSafe escape c = if-All (c == b'[') [] _ tt (if-All (c == b']') [] _ tt (plain_out-IsSafe c))
out-IsSafe _ c = tt

scan-IsSafe : (m : Mode) (s : Text) → All IsSafe (scan m s)
unfolding scan
scan-IsSafe m [] = tt
scan-IsSafe m (c ∷ s) = All-append IsSafe (out m c) _ (out-IsSafe m c) (scan-IsSafe (next m c) s)

-- Whatever the input, every character that `sanitize` returns is safe for a terminal.
pub sanitize-IsSafe : (input : Text) → All IsSafe (sanitize input)
sanitize-IsSafe input = rw sanitize-scan (scan-IsSafe plain input)

scan_plain :
    (c : ℕ) (s : Text) → is_dropped c ≡ false → c ≢ esc → scan plain (c ∷ s) ≡ c ∷ scan plain s
unfolding scan out next plain_out plain_next
scan_plain c s kept ne = ground arith

esc_unsafe : (c : ℕ) → IsSafe c → c ≢ esc
esc_unsafe c h e = ground (arith, h.no_c0)

scan-append : (s t : Text) → All IsSafe s → scan plain (s ++ t) ≡ s ++ scan plain t
scan-append [] t h = refl
scan-append (c ∷ s) t (hc, hs) =
    scan_plain c (s ++ t) (kept_of_IsSafe c hc) (esc_unsafe c hc) ∙ ap (◌∷◌ c) (scan-append s t hs)

-- Safe text passes unchanged, and what follows it is treated as if it stood alone.
pub sanitize-append : (s t : Text) → All IsSafe s → sanitize (s ++ t) ≡ s ++ sanitize t
sanitize-append s t h = simp sanitize-scan (scan-append s t h)

pub sanitize_safe : (s : Text) → All IsSafe s → sanitize s ≡ s
unfolding sanitize
sanitize_safe s h = sym (ap sanitize (append-nil s)) ∙ sanitize-append s [] h ∙ append-nil s

-- Sanitizing twice is sanitizing once.
pub sanitize_idem : (input : Text) → sanitize (sanitize input) ≡ sanitize input
sanitize_idem input = sanitize_safe (sanitize input) (sanitize-IsSafe input)

abbrev pub IsCsiBody : ℕ → Type 0
IsCsiBody p = ends_csi p ≡ false

scan-csi_body : (body t : Text) → All IsCsiBody body → scan csi (body ++ t) ≡ scan csi t
unfolding scan out next
scan-csi_body [] t h = refl
scan-csi_body (p ∷ body) t (hp, h) = rw hp (scan-csi_body body t h)

abbrev pub IsOscBody : ℕ → Type 0
IsOscBody p = (p ≢ 0x07) × (p ≢ esc)

scan-osc_body : (body t : Text) → All IsOscBody body → scan osc (body ++ t) ≡ scan osc t
unfolding scan out next
scan-osc_body [] t h = refl
scan-osc_body (p ∷ body) t (hp, h) = ground (arith, scan-osc_body body t h)

-- A CSI sequence, `ESC [` up to the first letter or `~`, disappears; with no such end it takes
-- the rest of the input along.
pub sanitize-csi :
    (body rest : Text) (final : ℕ)
    → All IsCsiBody body
    → ends_csi final ≡ true
    → (sanitize (esc ∷ b'[' ∷ (body ++ final ∷ rest)) ≡ sanitize rest)
      × (sanitize (esc ∷ b'[' ∷ body) ≡ [])
unfolding scan out next plain_out plain_next
sanitize-csi body rest final h e = (
  simp sanitize-scan (scan-csi_body body (final ∷ rest) h ∙ rw e),
  simp sanitize-scan (ap (scan csi) (sym (append-nil body)) ∙ scan-csi_body body [] h),
)

-- An OSC sequence, `ESC ]` up to BEL, or up to an ESC and the one character behind it, disappears;
-- with no such end it takes the rest of the input along.
pub sanitize-osc :
    (body rest : Text) (c : ℕ)
    → All IsOscBody body
    → (sanitize (esc ∷ b']' ∷ (body ++ 0x07 ∷ rest)) ≡ sanitize rest)
      × (sanitize (esc ∷ b']' ∷ (body ++ esc ∷ c ∷ rest)) ≡ sanitize rest)
      × (sanitize (esc ∷ b']' ∷ body) ≡ [])
unfolding scan out next plain_out plain_next
sanitize-osc body rest c h = (
  simp sanitize-scan (scan-osc_body body (0x07 ∷ rest) h),
  simp sanitize-scan (scan-osc_body body (esc ∷ c ∷ rest) h),
  simp sanitize-scan (ap (scan osc) (sym (append-nil body)) ∙ scan-osc_body body [] h),
)

-- To check a literal by evaluation.
unfoldable pub all_kept : Text → Bool
unfolding is_dropped
all_kept [] = true
all_kept (c ∷ s) = not (is_dropped c) && all_kept s

pub All-IsSafe : (s : Text) → all_kept s ≡ true → All IsSafe s
unfolding all_kept
All-IsSafe [] h = tt
All-IsSafe (c ∷ s) h = elim (Bool-cases (is_dropped c)) [
  | inl d ↦ cc (rw (d, all_kept) at h)
  | inr k ↦ (IsSafe-of_kept c k, All-IsSafe s (rw (k, all_kept) at h))
]
