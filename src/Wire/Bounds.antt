-- ===== src/Wire/Bounds.antt =====
-- What the reader guarantees of any stream that it accepts, well formed by the host or not.
use seck.Base.{ℕ, zero, suc, ◌≤◌, ◌≡◌, arith, true, List, length, length-take, Bytes, All}
use seck.Base.Outcome.{ok, bind-eq-ok}
use seck.Base.Utf8.{is_utf8}
use seck.Wire.{max_entries, max_path_len, max_entry_bytes, Frame}
use seck.Wire.Endian.{from_le_bytes}
use seck.Wire.Reader.{
  read_exact, read_path, read_bytes, read_entry, read_entries, read_header, read_trailer,
  read_frames,
}

pub record IsBounded (f : Frame) : Type 0 where
  pub path_valid : is_utf8 f.relative_path ≡ true
  pub path_fits : length f.relative_path ≤ max_path_len
  pub bytes_fit : length f.bytes ≤ max_entry_bytes

read_path_sound :
    (n : ℕ) (s path t : Bytes)
    → read_path n s ≡ ok (path, t)
    → (is_utf8 path ≡ true) × (length path ≤ max_path_len)
unfolding read_path read_exact
read_path_sound n s path t h = ground (arith, length-take n s)

read_bytes_sound :
    (n : ℕ) (s bytes t : Bytes) → read_bytes n s ≡ ok (bytes, t) → length bytes ≤ max_entry_bytes
unfolding read_bytes read_exact
read_bytes_sound n s bytes t h = ground (arith, length-take n s)

read_entry_sound : (s t : Bytes) (f : Frame) → read_entry s ≡ ok (f, t) → IsBounded f
unfolding read_entry
read_entry_sound s t f h =
    let (a, ea, ha) = bind-eq-ok (read_exact 4 s) _ h in
    let (b, eb, hb) = bind-eq-ok (read_path (from_le_bytes a.0) a.1) _ ha in
    let (c, ec, hc) = bind-eq-ok (read_exact 8 b.1) _ hb in
    let (d, ed, hd) = bind-eq-ok (read_bytes (from_le_bytes c.0) c.1) _ hc in
    let (valid, short) = read_path_sound (from_le_bytes a.0) a.1 b.0 b.1 eb in
    let small = read_bytes_sound (from_le_bytes c.0) c.1 d.0 d.1 ed in ground arith

read_entries_sound :
    (n : ℕ) (s t : Bytes) (fs : List Frame)
    → read_entries n s ≡ ok (fs, t)
    → (length fs ≡ n) × All IsBounded fs
unfolding read_entries
read_entries_sound zero s t fs h = ground arith
read_entries_sound (suc n) s t fs h =
    let (a, ea, ha) = bind-eq-ok (read_entry s) _ h in
    let (b, eb, hb) = bind-eq-ok (read_entries n a.1) _ ha in
    let first = read_entry_sound s a.1 a.0 ea in
    let (count, rest) = read_entries_sound n a.1 b.1 b.0 eb in ground arith

read_header_sound : (s t : Bytes) (n : ℕ) → read_header s ≡ ok (n, t) → n ≤ max_entries
unfolding read_header
read_header_sound s t n h = ground arith

read_trailer_sound :
    (out fs : List Frame) (s t : Bytes) → read_trailer out s ≡ ok (fs, t) → fs ≡ out
unfolding read_trailer
read_trailer_sound out fs s t h = ground arith

-- Whatever the bytes, frames that the reader returns are at most `MAX_ENTRIES`, each with a path
-- of valid UTF-8 of at most `MAX_PATH_LEN` bytes, and at most `MAX_ENTRY_BYTES` of content.
pub read_frames_sound :
    (s t : Bytes) (fs : List Frame)
    → read_frames s ≡ ok (fs, t)
    → (length fs ≤ max_entries) × All IsBounded fs
unfolding read_frames
read_frames_sound s t fs h =
    let (a, ea, ha) = bind-eq-ok (read_header s) _ h in
    let (b, eb, hb) = bind-eq-ok (read_entries a.0 a.1) _ ha in
    let few = read_header_sound s a.1 a.0 ea in
    let (count, bounded) = read_entries_sound a.0 a.1 b.1 b.0 eb in
    let same = read_trailer_sound b.0 fs b.1 t hb in rw same (omega (arith, few, count), bounded)
