-- ===== src/Wire/RoundTrip.antt =====
-- The reader's parse of what the host encodes.
use seck.Base.{
  ℕ, ◌^◌, ◌≤◌, ◌<◌, ◌≡◌, refl, arith, true, leb, List, [], ◌∷◌, ◌++◌, map, append_assoc, length,
  length-append, take-append, drop-append, equal_refl, Bytes, All,
}
use seck.Base.Outcome.{ok, err, ◌>>=◌}
use seck.Base.Utf8.{is_utf8, to_string_lossy, is_utf8-to_string_lossy}
use seck.Wire.{
  magic_header, magic_trailer, max_entries, max_path_len, max_entry_bytes, io, FileEntry, Frame,
}
use seck.Wire.Endian.{to_le_bytes, length-to_le_bytes, from_le_bytes-to_le_bytes}
use seck.Wire.Writer.{as_u32, header, framing, encode_entries, encode}
use seck.Wire.Reader.{
  read_exact, read_path, read_bytes, read_entry, read_entries, read_header, read_trailer,
  read_frames,
}

pub read_exact-append : (n : ℕ) (a s : Bytes) → length a ≡ n → read_exact n (a ++ s) ≡ ok (a, s)
unfolding read_exact
read_exact-append n a s e = rw (← e) (rw (leb_append a s, take-append, drop-append))
  where
    leb_append : (a s : Bytes) → leb (length a) (length (a ++ s)) ≡ true
    leb_append a s = ground (arith, length-append a s)

pub read_exact_short : (n : ℕ) (s : Bytes) → length s < n → read_exact n s ≡ err io
unfolding read_exact
read_exact_short n s h = ground arith

as_u32_small : (n : ℕ) → n ≤ 10_000 → as_u32 n ≡ n
as_u32_small n h = omega arith

length_field : (k n : ℕ) (s : Bytes) → read_exact k (to_le_bytes k n ++ s) ≡ ok (to_le_bytes k n, s)
length_field k n s = read_exact-append k (to_le_bytes k n) s (length-to_le_bytes k n)

unfoldable pub framed : Bytes → ℕ → Bytes → Bytes
framed path bl tail = to_le_bytes 4 (as_u32 (length path)) ++ (path ++ (to_le_bytes 8 bl ++ tail))

read_path-append :
    (path s : Bytes)
    → is_utf8 path ≡ true
    → length path ≤ max_path_len
    → read_path (length path) (path ++ s) ≡ ok (path, s)
unfolding read_path
read_path-append path s valid short =
    rw (leb_true, read_exact-append (length path) path s refl, valid)
  where
    leb_true : leb (length path) max_path_len ≡ true
    leb_true = ground arith

-- The reader takes a path and a length field apart, and goes on with the bytes.
pub read_entry-framed :
    (path tail : Bytes) (bl : ℕ)
    → is_utf8 path ≡ true
    → length path ≤ max_path_len
    → bl < 2 ^ 64
    → read_entry (framed path bl tail)
      ≡ (do (bytes, s) ← read_bytes bl tail; ok (record { relative_path = path; bytes = bytes }, s))
unfolding read_entry framed
read_entry-framed path tail bl valid short fits = rw (
  length_field 4 (as_u32 (length path)) (path ++ (to_le_bytes 8 bl ++ tail)),
  from_le_bytes-to_le_bytes 4 (as_u32 (length path)) (omega arith),
  as_u32_small (length path) (omega arith),
  read_path-append path (to_le_bytes 8 bl ++ tail) valid short,
  length_field 8 bl tail,
  from_le_bytes-to_le_bytes 8 bl fits,
)

pub read_bytes-append :
    (bytes s : Bytes)
    → length bytes ≤ max_entry_bytes
    → read_bytes (length bytes) (bytes ++ s) ≡ ok (bytes, s)
unfolding read_bytes
read_bytes-append bytes s small = rw (leb_true, read_exact-append (length bytes) bytes s refl)
  where
    leb_true : leb (length bytes) max_entry_bytes ≡ true
    leb_true = ground arith

-- The limits of the reader, and the file read in full: its length is the size in its frame.
pub record Fits (e : FileEntry) : Type 0 where
  pub path_fits : length (to_string_lossy e.relative) ≤ max_path_len
  pub bytes_fit : e.size ≤ max_entry_bytes
  pub is_whole : length e.bytes ≡ e.size

-- What the reader makes of an entry.
abbrev pub frame_of : FileEntry → Frame
frame_of e = record { relative_path = to_string_lossy e.relative; bytes = e.bytes }

pub framing-append :
    (e : FileEntry) (s : Bytes)
    → (framing e ++ e.bytes) ++ s ≡ framed (to_string_lossy e.relative) e.size (e.bytes ++ s)
unfolding framing framed
framing-append e s = simp append_assoc

pub read_entry-framing :
    (e : FileEntry) (s : Bytes)
    → Fits e
    → read_entry ((framing e ++ e.bytes) ++ s) ≡ ok (frame_of e, s)
read_entry-framing e s f = rw (
  framing-append e s,
  read_entry-framed (to_string_lossy e.relative) (e.bytes ++ s) e.size
      (is_utf8-to_string_lossy e.relative) f.path_fits (omega (arith, f.bytes_fit)),
  ← f.is_whole,
  read_bytes-append e.bytes s (omega (arith, f.bytes_fit, f.is_whole)),
)

pub read_entries-encode_entries :
    (es : List FileEntry) (s : Bytes)
    → All Fits es
    → read_entries (length es) (encode_entries es ++ s) ≡ ok (map frame_of es, s)
unfolding read_entries encode_entries
read_entries-encode_entries [] s h = refl
read_entries-encode_entries (e ∷ es) s (f, h) = rw (
  append_assoc (framing e ++ e.bytes) (encode_entries es) s,
  read_entry-framing e (encode_entries es ++ s) f,
  read_entries-encode_entries es s h,
)

pub read_header-header :
    (es : List FileEntry) (s : Bytes)
    → length es ≤ max_entries
    → read_header (header es ++ s) ≡ ok (length es, s)
unfolding read_header header read_exact to_le_bytes
read_header-header es s h = rw (
  read_exact-append 4 magic_header _ refl,
  equal_refl magic_header,
  length_field 2 1 _,
  from_le_bytes-to_le_bytes 2 1 (omega arith),
  read_exact-append 2 (0 ∷ 0 ∷ []) _ refl,
  length_field 4 (as_u32 (length es)) s,
  from_le_bytes-to_le_bytes 4 (as_u32 (length es)) (omega arith),
  as_u32_small (length es) h,
  leb_true,
)
  where
    leb_true : leb (length es) max_entries ≡ true
    leb_true = ground arith

pub read_trailer-trailer :
    (out : List Frame) (s : Bytes) → read_trailer out (magic_trailer ++ s) ≡ ok (out, s)
unfolding read_trailer
read_trailer-trailer out s = rw (read_exact-append 4 magic_trailer s refl, equal_refl magic_trailer)

-- The reader parses the host's stream into one frame for each file, in order, with the paths made
-- valid UTF-8 and the same bytes, and leaves what follows the stream, for a file set within the
-- reader's limits all of whose files were read in full.
pub read_frames-encode :
    (es : List FileEntry) (s : Bytes)
    → length es ≤ max_entries
    → All Fits es
    → read_frames (encode es ++ s) ≡ ok (map frame_of es, s)
unfolding read_frames encode
read_frames-encode es s few fit = rw (
  append_assoc (header es ++ encode_entries es) magic_trailer s,
  append_assoc (header es) (encode_entries es) (magic_trailer ++ s),
  read_header-header es (encode_entries es ++ (magic_trailer ++ s)) few,
  read_entries-encode_entries es (magic_trailer ++ s) fit,
  read_trailer-trailer (map frame_of es) s,
)
