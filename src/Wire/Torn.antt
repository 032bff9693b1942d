-- ===== src/Wire/Torn.antt =====
-- Streams that hold a file shorter than the size in its frame: `build_fileset` stops at the end of a
-- file, and keeps the size that the walk saw (see `Fileset`).
use seck.Base.{
  ℕ, suc, ◌+◌, ◌≤◌, ◌<◌, ◌≡◌, arith, true, leb, List, [], ◌∷◌, ◌++◌, append_assoc, append-nil,
  length, length-append, length-drop, drop, take, Bytes, All, inl, inr, ◌⊎◌,
}
use seck.Base.Outcome.{Result, ok, err, ◌>>=◌}
use seck.Base.Utf8.{is_utf8, to_string_lossy, is_utf8-to_string_lossy}
use seck.Wire.{
  magic_trailer, max_entries, max_path_len, max_entry_bytes, io, ProtoError, FileEntry, Frame,
}
use seck.Wire.Writer.{header, framing, encode_entries, encode}
use seck.Wire.Reader.{read_exact, read_bytes, read_entry, read_entries, read_trailer, read_frames}
use seck.Wire.RoundTrip.{
  read_exact_short, framed, framing-append, read_entry-framed, read_bytes-append, Fits, frame_of,
  read_entry-framing, read_header-header, read_trailer-trailer,
}

-- `second` holds the frame of path `q` with the content `c`, and `first` came up short by the frame
-- of `second`.
pub record IsForgery (first second : FileEntry) (q c : Bytes) : Type 0 where
  pub path_fits : length (to_string_lossy first.relative) ≤ max_path_len
  pub bytes_fit : first.size ≤ max_entry_bytes
  pub short_by : first.size ≡ length first.bytes + length (framing second)
  pub carries : second.bytes ≡ framed q (length c) c
  pub q_valid : is_utf8 q ≡ true
  pub q_fits : length q ≤ max_path_len
  pub c_fits : length c ≤ max_entry_bytes

module _ {first second : FileEntry} {q c : Bytes} (f : IsForgery first second q c) where
  read_first :
      (s : Bytes)
      → read_entry ((framing first ++ first.bytes) ++ (framing second ++ s))
        ≡ ok (
          record {
            relative_path = to_string_lossy first.relative;
            bytes = first.bytes ++ framing second;
          },
          s,
        )
  read_first s = rw (
    framing-append first (framing second ++ s),
    read_entry-framed (to_string_lossy first.relative) (first.bytes ++ (framing second ++ s))
        first.size (is_utf8-to_string_lossy first.relative) f.path_fits
        (omega (arith, f.bytes_fit)),
    ← append_assoc first.bytes (framing second) s,
    f.short_by,
    ← length-append first.bytes (framing second),
    read_bytes-append (first.bytes ++ framing second) s
        (omega (arith, f.bytes_fit, f.short_by, length-append first.bytes (framing second))),
  )

  read_second :
      (s : Bytes)
      → read_entry (framed q (length c) (c ++ s)) ≡ ok (record { relative_path = q; bytes = c }, s)
  read_second s = rw (
    read_entry-framed q (c ++ s) (length c) f.q_valid f.q_fits (omega (arith, f.c_fits)),
    read_bytes-append c s f.c_fits,
  )

read_trailer_end : (out : List Frame) → read_trailer out magic_trailer ≡ ok (out, [])
read_trailer_end out = rw append-nil at (read_trailer-trailer out [])

framed-append : (q c s : Bytes) (n : ℕ) → framed q n c ++ s ≡ framed q n (c ++ s)
unfolding framed
framed-append q c s n = simp append_assoc

-- A file that shrank by the length of the next frame lets the next file's content forge a frame:
-- the reader returns the path and the content that the second file spells out, and no frame for
-- the second file.
pub read_frames_forged :
    (first second : FileEntry) (q c : Bytes)
    → IsForgery first second q c
    → read_frames (encode (first ∷ second ∷ []))
      ≡ ok (
        record {
          relative_path = to_string_lossy first.relative;
          bytes = first.bytes ++ framing second;
        }
            ∷ record { relative_path = q; bytes = c }
            ∷ [],
        [],
      )
unfolding read_frames encode encode_entries read_entries
read_frames_forged first second q c f =
    rw
      (
        append_assoc (header (first ∷ second ∷ []))
            ((framing first ++ first.bytes) ++ ((framing second ++ second.bytes) ++ []))
            magic_trailer,
        read_header-header (first ∷ second ∷ []) _ (omega arith),
        append-nil (framing second ++ second.bytes),
        append_assoc (framing first ++ first.bytes) (framing second ++ second.bytes) magic_trailer,
        append_assoc (framing second) second.bytes magic_trailer,
        read_first f (second.bytes ++ magic_trailer),
        f.carries,
        framed-append q c magic_trailer (length c),
        read_second f magic_trailer,
      )
      (read_trailer_end _)

-- The rest of the parse, with `n` entries to come, ends in an I/O error.
abbrev Fails : ℕ → Bytes → Type 0
Fails n s =
    (out : List Frame)
    → (do (frames, t) ← read_entries n s; read_trailer (out ++ frames) t) ≡ err io

-- The reader's limits, and fewer bytes than the size in the frame.
pub record IsShort (e : FileEntry) : Type 0 where
  pub path_fits : length (to_string_lossy e.relative) ≤ max_path_len
  pub bytes_fit : e.size ≤ max_entry_bytes
  pub is_short : length e.bytes < e.size

read_bytes_short :
    (n : ℕ) (s : Bytes) → n ≤ max_entry_bytes → length s < n → read_bytes n s ≡ err io
unfolding read_bytes
read_bytes_short n s small h = rw (leb_true, read_exact_short n s h)
  where
    leb_true : leb n max_entry_bytes ≡ true
    leb_true = ground arith

read_bytes_enough :
    (n : ℕ) (s : Bytes)
    → n ≤ max_entry_bytes
    → n ≤ length s
    → read_bytes n s ≡ ok (take n s, drop n s)
unfolding read_bytes read_exact
read_bytes_enough n s small h = ground arith

read_trailer_short : (out : List Frame) (s : Bytes) → length s < 4 → read_trailer out s ≡ err io
unfolding read_trailer
read_trailer_short out s h = rw (read_exact_short 4 s h)

Fails-short : (e : FileEntry) → IsShort e → Fails 1 ((framing e ++ e.bytes) ++ magic_trailer)
unfolding read_entries
Fails-short e f out =
    rw
      (
        framing-append e magic_trailer,
        read_entry-framed (to_string_lossy e.relative) (e.bytes ++ magic_trailer) e.size
            (is_utf8-to_string_lossy e.relative) f.path_fits (omega (arith, f.bytes_fit)),
      )
      (elim (leb_cases e.size (length (e.bytes ++ magic_trailer))) [
        | inl enough ↦ rw (read_bytes_enough e.size (e.bytes ++ magic_trailer) f.bytes_fit enough) (
            read_trailer_short _ _ (
              omega (
                arith,
                f.is_short,
                enough,
                length-append e.bytes magic_trailer,
                length-drop e.size (e.bytes ++ magic_trailer),
              )))
        | inr short ↦ rw (read_bytes_short e.size (e.bytes ++ magic_trailer) f.bytes_fit short)
      ])
  where
    leb_cases : (a b : ℕ) → (a ≤ b) ⊎ (b < a)
    leb_cases a b = grind arith

Fails-cons :
    (n : ℕ) (e : FileEntry) (s : Bytes)
    → Fits e
    → Fails n s
    → Fails (suc n) ((framing e ++ e.bytes) ++ s)
unfolding read_entries
Fails-cons n e s f h out =
    rw (read_entry-framing e s f) (by_rest (read_entries n s) (h (out ++ frame_of e ∷ [])))
  where
    by_rest :
        (r : Result ProtoError (List Frame × Bytes))
        → (do (frames, t) ← r; read_trailer ((out ++ frame_of e ∷ []) ++ frames) t) ≡ err io
        → (do
          (frames, t) ← (do (frames, t) ← r; ok (frame_of e ∷ frames, t))
          read_trailer (out ++ frames) t)
          ≡ err io
    by_rest (ok (frames, t)) g = rw append_assoc at g
    by_rest (err x) g = g

Fails-encode_entries :
    (es : List FileEntry) (e : FileEntry)
    → All Fits es
    → IsShort e
    → Fails (length (es ++ e ∷ [])) (encode_entries (es ++ e ∷ []) ++ magic_trailer)
unfolding encode_entries
Fails-encode_entries [] e fit short = rw append-nil (Fails-short e short)
Fails-encode_entries (x ∷ es) e (fx, fit) short =
    rw append_assoc (Fails-cons _ x _ fx (Fails-encode_entries es e fit short))

-- If every file but the last was read in full and the last came up short, the reader refuses the
-- stream with an I/O error, and returns no frame.
pub read_frames_short_last :
    (es : List FileEntry) (e : FileEntry)
    → length (es ++ e ∷ []) ≤ max_entries
    → All Fits es
    → IsShort e
    → read_frames (encode (es ++ e ∷ [])) ≡ err io
unfolding read_frames encode
read_frames_short_last es e few fit short =
    rw
      (
        append_assoc (header (es ++ e ∷ [])) (encode_entries (es ++ e ∷ [])) magic_trailer,
        read_header-header (es ++ e ∷ []) _ few,
      )
      (Fails-encode_entries es e fit short [])
