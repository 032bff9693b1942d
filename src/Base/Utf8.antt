-- ===== src/Base/Utf8.antt =====
-- The UTF-8 conversions of Rust's standard library that the source calls on byte strings:
-- `String::from_utf8` (as the test `is_utf8`) and `to_string_lossy`.
use seck.Base.{
  ℕ, zero, suc, ◌+◌, ◌/◌, ◌%◌, sym, Bool, true, false, ◌&&◌, Option, none, some, [], ◌∷◌, ◌++◌, ◌≡◌,
  refl, ◌∙◌, ap, ltb, leb, ◌==◌, if◌then◌else◌, append_assoc, Bool-cases, Option-cases, inl, inr,
  Bytes, All,
}

-- `more lo hi left`: the next byte lies in `lo ..= hi`, and `left` continuation bytes follow it.
pub data Utf8State : Type 0 where
  start : Utf8State
  more : ℕ → ℕ → ℕ → Utf8State

abbrev within : ℕ → ℕ → ℕ → Bool
within lo hi c = leb lo c && leb c hi

lead : ℕ → Option Utf8State
lead b =
    if ltb b 0x80
    then some start
    else if within 0xC2 0xDF b
    then some (more 0x80 0xBF 0)
    else if b == 0xE0
    then some (more 0xA0 0xBF 1)
    else if b == 0xED
    then some (more 0x80 0x9F 1)
    else if within 0xE1 0xEF b
    then some (more 0x80 0xBF 1)
    else if b == 0xF0
    then some (more 0x90 0xBF 2)
    else if b == 0xF4
    then some (more 0x80 0x8F 2)
    else if within 0xF1 0xF3 b
    then some (more 0x80 0xBF 2)
    else none

continued : ℕ → Utf8State
continued zero = start
continued (suc left) = more 0x80 0xBF left

-- `none` is a byte that cannot stand here.
advance : Utf8State → ℕ → Option Utf8State
advance start b = lead b
advance (more lo hi left) b = if within lo hi b then some (continued left) else none

is_utf8_from : Utf8State → Bytes → Bool
is_utf8_from start [] = true
is_utf8_from (more lo hi left) [] = false
is_utf8_from st (b ∷ s) = elim (advance st b) [ none ↦ false | some st' ↦ is_utf8_from st' s ]

unfoldable pub is_utf8 : Bytes → Bool
unfolding is_utf8_from advance lead continued
is_utf8 = is_utf8_from start

-- U+FFFD
abbrev replacement : Bytes
replacement = 0xEF ∷ 0xBF ∷ 0xBD ∷ []

-- What is written, and what is held back until the character is whole.
record Scan : Type 0 where
  written : Bytes
  state : Utf8State
  held : Bytes

hold : Bytes → Utf8State → Scan
hold held start = record { written = held; state = start; held = [] }
hold held st = record { written = []; state = st; held = held }

scan_lead : ℕ → Option Utf8State → Scan
scan_lead b none = record { written = replacement; state = start; held = [] }
scan_lead b (some st) = hold (b ∷ []) st

lossy_lead : ℕ → Scan
unfolding scan_lead
lossy_lead b = scan_lead b (lead b)

lossy_step : Utf8State → Bytes → ℕ → Scan
lossy_step start held b = lossy_lead b
lossy_step (more lo hi left) held b =
    if within lo hi b
    then hold (held ++ b ∷ []) (continued left)
    else record (lossy_lead b) { written = replacement ++ (lossy_lead b).written }

-- A maximal ill-formed piece becomes one replacement character.
lossy_from : Utf8State → Bytes → Bytes → Bytes
lossy_from start held [] = []
lossy_from (more lo hi left) held [] = replacement
lossy_from st held (b ∷ s) =
    let r = lossy_step st held b in r.written ++ lossy_from r.state r.held s

unfoldable pub to_string_lossy : Bytes → Bytes
unfolding lossy_from lossy_step lossy_lead hold lead continued
to_string_lossy = lossy_from start []

-- `held` takes the decoder from the start to `st`.
abbrev LeadsTo : Utf8State → Bytes → Type 0
LeadsTo st held = (t : Bytes) → is_utf8_from start (held ++ t) ≡ is_utf8_from st t

is_utf8_from-advance :
    (st st' : Utf8State) (b : ℕ) (t : Bytes)
    → advance st b ≡ some st'
    → is_utf8_from st (b ∷ t) ≡ is_utf8_from st' t
unfolding is_utf8_from
is_utf8_from-advance start st' b t h = rw (h, is_utf8_from)
is_utf8_from-advance (more _ _ _) st' b t h = rw (h, is_utf8_from)

LeadsTo-advance :
    (st st' : Utf8State) (held : Bytes) (b : ℕ)
    → LeadsTo st held
    → advance st b ≡ some st'
    → LeadsTo st' (held ++ b ∷ [])
LeadsTo-advance st st' held b leads h t =
    rw append_assoc (leads (b ∷ t) ∙ is_utf8_from-advance st st' b t h)

record IsSound (r : Scan) : Type 0 where
  kept : LeadsTo r.state r.held
  valid : (t : Bytes) → is_utf8_from start (r.written ++ t) ≡ is_utf8_from start t

hold-IsSound : (held : Bytes) (st : Utf8State) → LeadsTo st held → IsSound (hold held st)
unfolding hold
hold-IsSound held start leads = record { kept = λ t. refl; valid = leads }
hold-IsSound held (more lo hi left) leads = record { kept = leads; valid = λ t. refl }

replacement_lem : (t : Bytes) → is_utf8_from start (replacement ++ t) ≡ is_utf8_from start t
unfolding is_utf8
replacement_lem t = refl

scan_lead-IsSound : (b : ℕ) (o : Option Utf8State) → lead b ≡ o → IsSound (scan_lead b o)
unfolding scan_lead advance
scan_lead-IsSound b none e = record { kept = λ t. refl; valid = replacement_lem }
scan_lead-IsSound b (some st) e =
    hold-IsSound (b ∷ []) st (LeadsTo-advance start st [] b (λ t. refl) e)

lossy_step-IsSound :
    (st : Utf8State) (held : Bytes) (b : ℕ) → LeadsTo st held → IsSound (lossy_step st held b)
unfolding lossy_step lossy_lead advance
lossy_step-IsSound start held b leads = scan_lead-IsSound b (lead b) refl
lossy_step-IsSound (more lo hi left) held b leads = elim (Bool-cases (within lo hi b)) [
  | inl fits ↦ rw fits (
      hold-IsSound (held ++ b ∷ []) (continued left)
        (LeadsTo-advance (more lo hi left) (continued left) held b leads (rw fits)))
  | inr stray ↦
      let sound = scan_lead-IsSound b (lead b) refl in
      rw stray (record { kept = sound.kept; valid = λ t. replacement_lem _ ∙ sound.valid t })
]

lossy_from_valid :
    (s : Bytes) (st : Utf8State) (held : Bytes)
    → LeadsTo st held
    → is_utf8_from start (lossy_from st held s) ≡ true
unfolding lossy_from
lossy_from_valid [] start held leads = unfold is_utf8_from in refl
lossy_from_valid [] (more lo hi left) held leads = unfold is_utf8 in refl
lossy_from_valid (b ∷ s) start held leads =
    let sound = lossy_step-IsSound start held b leads in
    sound.valid _ ∙ lossy_from_valid s _ _ sound.kept
lossy_from_valid (b ∷ s) (more lo hi left) held leads =
    let sound = lossy_step-IsSound (more lo hi left) held b leads in
    sound.valid _ ∙ lossy_from_valid s _ _ sound.kept

-- What `to_string_lossy` returns is valid UTF-8, whatever the bytes.
pub is_utf8-to_string_lossy : (s : Bytes) → is_utf8 (to_string_lossy s) ≡ true
unfolding is_utf8 to_string_lossy
is_utf8-to_string_lossy s = lossy_from_valid s start [] (λ t. refl)

-- In the start state nothing is held back.
abbrev NothingHeld : Utf8State → Bytes → Type 0
NothingHeld start held = held ≡ []
NothingHeld (more lo hi left) held = Unit

lossy_from-valid :
    (s : Bytes) (st : Utf8State) (held : Bytes)
    → NothingHeld st held
    → is_utf8_from st s ≡ true
    → lossy_from st held s ≡ held ++ s
unfolding lossy_from lossy_step lossy_lead scan_lead hold is_utf8_from advance continued
lossy_from-valid [] start held n h = rw n
lossy_from-valid [] (more lo hi left) held n h = cc
lossy_from-valid (b ∷ s) start held n h = elim (Option-cases (lead b)) [
  | inl e ↦ cc (rw (e, is_utf8_from) at h)
  | inr (start, e) ↦
      rw (n, e) (ap (◌∷◌ b) (lossy_from-valid s start [] refl (rw (e, is_utf8_from) at h)))
  | inr (more lo hi left, e) ↦
      rw (n, e) (lossy_from-valid s (more lo hi left) (b ∷ []) tt (rw (e, is_utf8_from) at h))
]
lossy_from-valid (b ∷ s) (more lo hi zero) held n h = elim (Bool-cases (within lo hi b)) [
  | inl fits ↦
      rw (fits, append_assoc)
        (ap (λ (t : Bytes). held ++ b ∷ t)
          (lossy_from-valid s start [] refl (rw (fits, is_utf8_from) at h)))
  | inr stray ↦ cc (rw (stray, is_utf8_from) at h)
]
lossy_from-valid (b ∷ s) (more lo hi (suc left)) held n h = elim (Bool-cases (within lo hi b)) [
  | inl fits ↦ rw fits (
      lossy_from-valid s (more 0x80 0xBF left) (held ++ b ∷ []) tt (rw (fits, is_utf8_from) at h)
      ∙ append_assoc held (b ∷ []) s)
  | inr stray ↦ cc (rw (stray, is_utf8_from) at h)
]

-- On valid UTF-8 `to_string_lossy` changes nothing.
pub to_string_lossy_valid : (s : Bytes) → is_utf8 s ≡ true → to_string_lossy s ≡ s
unfolding is_utf8 to_string_lossy
to_string_lossy_valid s h = lossy_from-valid s start [] refl h

-- `char::encode_utf8`, for a scalar value
encode_char : ℕ → Bytes
encode_char c =
    if ltb c 0x80
    then c ∷ []
    else if ltb c 0x800
    then (0xC0 + c / 64) ∷ (0x80 + c % 64) ∷ []
    else if ltb c 0x10000
    then (0xE0 + c / 4096) ∷ (0x80 + c / 64 % 64) ∷ (0x80 + c % 64) ∷ []
    else (0xF0 + c / 262144) ∷ (0x80 + c / 4096 % 64) ∷ (0x80 + c / 64 % 64) ∷ (0x80 + c % 64) ∷ []

-- `text.as_bytes()`, `text.into_bytes()`
unfoldable pub as_bytes : Bytes → Bytes
unfolding encode_char
as_bytes [] = []
as_bytes (c ∷ s) = encode_char c ++ as_bytes s

pub as_bytes-append : (a b : Bytes) → as_bytes (a ++ b) ≡ as_bytes a ++ as_bytes b
unfolding as_bytes
as_bytes-append [] b = refl
as_bytes-append (c ∷ a) b =
    ap (λ t. encode_char c ++ t) (as_bytes-append a b)
    ∙ sym (append_assoc (encode_char c) (as_bytes a) (as_bytes b))

abbrev pub IsAscii : Bytes → Type 0
IsAscii s = All (λ c. ltb c 0x80 ≡ true) s

is_utf8_from-IsAscii : (s : Bytes) → IsAscii s → is_utf8_from start s ≡ true
unfolding is_utf8_from advance lead
is_utf8_from-IsAscii [] h = refl
is_utf8_from-IsAscii (c ∷ s) h = rw (h.0, is_utf8_from) (is_utf8_from-IsAscii s h.1)

pub is_utf8-IsAscii : (s : Bytes) → IsAscii s → is_utf8 s ≡ true
unfolding is_utf8
is_utf8-IsAscii s h = is_utf8_from-IsAscii s h
