-- ===== src/Pair/Fingerprint.antt =====
-- `format_fingerprint`, `lan_ip` and `build_bundle` of crates/seck-pair/src/pairing.rs. A text is its
-- bytes in UTF-8; the environment and the parser of addresses are parameters.
use seck.Base.{
  ℕ, zero, suc, ◌≡◌, refl, sym, ap, ◌∙◌, false, Bool-cases, inl, inr, Option, none, some, List, [],
  ◌∷◌, ◌++◌, map, append_assoc, append-nil, ◌==◌, if◌then◌else◌, All, Bytes, Text,
}
use seck.Base.Outcome.{Result, ok, err, ◌>>=◌}
use seck.Base.Strings.{join, flatten}
use seck.Base.Utf8.{is_utf8, IsAscii, is_utf8-IsAscii}
use seck.Web.Bind.{IpAddr, v4}
use seck.Pair.{WgEndpoint, PairError, PairingBundle, bad_lan_ip, build_bundle_with_ip}

-- `chunks(8)`: the chunk so far still takes `left` bytes.
unfoldable pub chunk_loop : ℕ → Bytes → Bytes → List Bytes
chunk_loop left [] [] = []
chunk_loop left (c ∷ chunk) [] = (c ∷ chunk) ∷ []
chunk_loop zero chunk (c ∷ s) = chunk ∷ chunk_loop 7 (c ∷ []) s
chunk_loop (suc left) chunk (c ∷ s) = chunk_loop left (chunk ++ c ∷ []) s

unfoldable pub utf8_or_empty : Bytes → Bytes
utf8_or_empty c = if is_utf8 c then c else []

unfoldable pub format_fingerprint : Bytes → Bytes
unfolding chunk_loop utf8_or_empty join
format_fingerprint hex = join (b' ' ∷ []) (map utf8_or_empty (chunk_loop 8 [] hex))

-- `$SECK_PAIR_LAN_IP`, if it is set.
unfoldable pub lan_ip : (Text → Option IpAddr) → Option Text → Result PairError IpAddr
lan_ip parse none = ok (v4 127 0 0 1)
lan_ip parse (some s) = elim (parse s) [ some ip ↦ ok ip | none ↦ err bad_lan_ip ]

unfoldable pub build_bundle :
    (Bytes → Text)
    → (Bytes → Bytes)
    → (IpAddr → Text)
    → (Text → Option IpAddr)
    → Option Text
    → WgEndpoint
    → Result PairError PairingBundle
unfolding lan_ip build_bundle_with_ip
build_bundle hex_encode sha3_256 show_ip parse var ep = do
  ip ← lan_ip parse var
  build_bundle_with_ip hex_encode sha3_256 show_ip ep ip

-- What is read off without the spaces.
unfoldable pub without_spaces : Bytes → Bytes
without_spaces [] = []
without_spaces (c ∷ s) = let rest = without_spaces s in if c == b' ' then rest else c ∷ rest

abbrev pub HasNoSpace : Bytes → Type 0
HasNoSpace s = All (λ c. (c == b' ') ≡ false) s

without_spaces-append :
    (a b : Bytes) → without_spaces (a ++ b) ≡ without_spaces a ++ without_spaces b
unfolding without_spaces
without_spaces-append [] b = refl
without_spaces-append (c ∷ a) b = elim (Bool-cases (c == b' ')) [
  | inl space ↦ rw (space, without_spaces) (without_spaces-append a b)
  | inr other ↦ rw other (ap (◌∷◌ c) (without_spaces-append a b))
]

without_spaces-HasNoSpace : (s : Bytes) → HasNoSpace s → without_spaces s ≡ s
unfolding without_spaces
without_spaces-HasNoSpace [] h = refl
without_spaces-HasNoSpace (c ∷ s) h = rw h.0 (ap (◌∷◌ c) (without_spaces-HasNoSpace s h.1))

without_spaces-join :
    (ts : List Bytes) → without_spaces (join (b' ' ∷ []) ts) ≡ without_spaces (flatten ts)
unfolding join without_spaces
without_spaces-join [] = refl
without_spaces-join (t ∷ []) = ap without_spaces (sym (append-nil t))
without_spaces-join (t ∷ u ∷ ts) =
    without_spaces-append t _
    ∙ ap (λ x. without_spaces t ++ x) (without_spaces-join (u ∷ ts))
    ∙ sym (without_spaces-append t (flatten (u ∷ ts)))

flatten-chunk_loop : (left : ℕ) (chunk s : Bytes) → flatten (chunk_loop left chunk s) ≡ chunk ++ s
unfolding chunk_loop
flatten-chunk_loop left [] [] = refl
flatten-chunk_loop left (c ∷ chunk) [] = refl
flatten-chunk_loop zero chunk (c ∷ s) = ap (λ x. chunk ++ x) (flatten-chunk_loop 7 (c ∷ []) s)
flatten-chunk_loop (suc left) chunk (c ∷ s) =
    flatten-chunk_loop left (chunk ++ c ∷ []) s ∙ append_assoc chunk (c ∷ []) s

IsAscii-append : (a b : Bytes) → IsAscii a → IsAscii b → IsAscii (a ++ b)
IsAscii-append [] b h k = k
IsAscii-append (c ∷ a) b h k = (h.0, IsAscii-append a b h.1 k)

utf8-chunk_loop :
    (left : ℕ) (chunk s : Bytes)
    → IsAscii chunk
    → IsAscii s
    → map utf8_or_empty (chunk_loop left chunk s) ≡ chunk_loop left chunk s
unfolding chunk_loop utf8_or_empty
utf8-chunk_loop left [] [] h k = refl
utf8-chunk_loop left (c ∷ chunk) [] h k = rw (is_utf8-IsAscii (c ∷ chunk) h) refl
utf8-chunk_loop zero chunk (c ∷ s) h k =
    rw (is_utf8-IsAscii chunk h) (ap (◌∷◌ chunk) (utf8-chunk_loop 7 (c ∷ []) s (k.0, tt) k.1))
utf8-chunk_loop (suc left) chunk (c ∷ s) h k =
    utf8-chunk_loop left (chunk ++ c ∷ []) s (IsAscii-append chunk (c ∷ []) h (k.0, tt)) k.1

-- A fingerprint in ASCII without spaces is read off its groups as it was, whatever its length, so that
-- two fingerprints that are shown alike are the same.
pub without_spaces-format_fingerprint :
    (hex : Bytes) → IsAscii hex → HasNoSpace hex → without_spaces (format_fingerprint hex) ≡ hex
unfolding format_fingerprint
without_spaces-format_fingerprint hex h k =
    without_spaces-join (map utf8_or_empty (chunk_loop 8 [] hex))
    ∙ ap (λ ts. without_spaces (flatten ts)) (utf8-chunk_loop 8 [] hex tt h)
    ∙ ap without_spaces (flatten-chunk_loop 8 [] hex)
    ∙ without_spaces-HasNoSpace hex k
