-- ===== src/Report/Sanitize.antt =====
-- `sanitize` of crates/seck-report/src/sanitize.rs. The iterator is the characters left.
pub mod Automaton
pub mod Laws
use seck.Base.{
  ℕ, zero, suc, Bool, ◌&&◌, ◌||◌, not, [], ◌∷◌, ltb, leb, ◌==◌, if◌then◌else◌, length, drop, Text,
}

abbrev pub esc : ℕ
esc = 0x1b

abbrev pub within : ℕ → ℕ → ℕ → Bool
within lo hi c = leb lo c && leb c hi

unfoldable pub is_ascii_alphabetic : ℕ → Bool
is_ascii_alphabetic c = within b'A' b'Z' c || within b'a' b'z' c

-- `char::is_control`: the category Cc
unfoldable pub is_control : ℕ → Bool
is_control c = ltb c 0x20 || within 0x7f 0x9f c

-- The arms of the match that push nothing, `ESC` aside.
unfoldable pub is_dropped : ℕ → Bool
unfolding is_control
is_dropped c =
    within 0x202a 0x202e c
    || within 0x2066 0x2069 c
    || (c == 0x200b || c == 0x200c || c == 0x200d || c == 0xfeff)
    || (is_control c && not (c == b'\n') && not (c == b'\t'))

abbrev pub ends_csi : ℕ → Bool
ends_csi p = is_ascii_alphabetic p || p == b'~'

-- the loop behind `ESC [`
unfoldable pub skip_csi : Text → Text
skip_csi [] = []
skip_csi (p ∷ chars) = let rest = skip_csi chars in if ends_csi p then chars else rest

-- the loop behind `ESC ]`
unfoldable pub skip_osc : Text → Text
skip_osc [] = []
skip_osc (p ∷ chars) =
    let rest = skip_osc chars in
    if p == 0x07 then chars else if p == esc then drop 1 chars else rest

unfoldable pub after_escape : Text → Text
unfolding skip_csi skip_osc
after_escape [] = []
after_escape (p ∷ chars) =
    if p == b'[' then skip_csi chars else if p == b']' then skip_osc chars else p ∷ chars

unfoldable pub sanitize_loop : ℕ → Text → Text
sanitize_loop zero chars = []
sanitize_loop (suc fuel) [] = []
sanitize_loop (suc fuel) (c ∷ chars) =
    let out = sanitize_loop fuel (if c == esc then after_escape chars else chars) in
    if c == esc then out else if is_dropped c then out else c ∷ out

-- Each round takes a character at least, so the length is fuel enough.
unfoldable pub sanitize : Text → Text
unfolding sanitize_loop after_escape is_dropped is_ascii_alphabetic
sanitize input = sanitize_loop (length input) input
