-- ===== src/Reader/Quotes.antt =====
-- The quotes of the prompt, between which the paths stand.
use seck.Base.{
  ℕ, ◌+◌, ◌*◌, ◌≡◌, refl, ◌∙◌, arith, Bool-cases, inl, inr, List, [], ◌∷◌, ◌==◌, length, Bytes,
}
use seck.Base.Count.{count, count_all, count-append, count-flatten}
use seck.Base.Strings.{flatten}
use seck.Wire.{Frame}
use seck.Reader.Prompt.{
  Encoders, escape_quotes, file_pieces, assemble_files, prompt_pieces, assemble,
}

abbrev pub quotes : Bytes → ℕ
quotes s = count b'"' s

-- Neither hex digits nor base64 hold a quote.
pub record HasNoQuotes (e : Encoders) : Type 0 where
  pub hex : (b : Bytes) → quotes (e.hex_encode b) ≡ 0
  pub base64 : (b : Bytes) → quotes (e.base64_encode b) ≡ 0

quotes-escape_quotes : (s : Bytes) → quotes (escape_quotes s) ≡ 0
unfolding escape_quotes count
quotes-escape_quotes [] = refl
quotes-escape_quotes (c ∷ s) = elim (Bool-cases (c == b'"')) [
  | inl q ↦ rw (q, escape_quotes) (quotes-escape_quotes s)
  | inr n ↦ rw (n, escape_quotes) (rw (n, count) (quotes-escape_quotes s))
]

module _ (e : Encoders) (h : HasNoQuotes e) where
  quotes-file_pieces :
      (nonce : Bytes) (f : Frame) → quotes (flatten (file_pieces e (e.hex_encode nonce) f)) ≡ 2
  unfolding count count_all
  quotes-file_pieces nonce f =
      count-flatten b'"' (file_pieces e (e.hex_encode nonce) f)
      ∙ rw (quotes-escape_quotes f.relative_path, h.hex nonce, h.base64 f.bytes) refl

  quotes-assemble_files :
      (nonce : Bytes) (fs : List Frame)
      → quotes (assemble_files e (e.hex_encode nonce) fs) ≡ 2 * length fs
  unfolding assemble_files count
  quotes-assemble_files nonce [] = refl
  quotes-assemble_files nonce (f ∷ fs) = omega (
    arith,
    count-append b'"' (flatten (file_pieces e (e.hex_encode nonce) f))
        (assemble_files e (e.hex_encode nonce) fs),
    quotes-file_pieces nonce f,
    quotes-assemble_files nonce fs,
  )

  -- The prompt holds two quotes for each file and 16 of its own, whatever the paths and the bytes:
  -- no path can close the attribute in which it stands, if hex digits and base64 hold no quote.
  pub quotes-assemble :
      (nonce : Bytes) (frames : List Frame)
      → quotes (assemble e nonce frames) ≡ 16 + 2 * length frames
  unfolding assemble count count_all
  quotes-assemble nonce frames =
      count-flatten b'"' (prompt_pieces e (e.hex_encode nonce) frames)
      ∙ rw (h.hex nonce, quotes-assemble_files nonce frames) (omega arith)
