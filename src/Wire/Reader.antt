-- ===== src/Wire/Reader.antt =====
-- `read_frames` of crates/seck-reader/src/protocol.rs. The reader is the bytes that are still to be
-- read; at their end `read_exact` fails. Other I/O errors of the pipe are not modelled.
use seck.Base.{
  ℕ, zero, suc, leb, ◌==◌, if◌then◌else◌, List, [], ◌∷◌, length, take, drop, equal, Bytes,
}
use seck.Base.Outcome.{Result, ok, err, ◌>>=◌, ◌>>◌, guard}
use seck.Base.Utf8.{is_utf8}
use seck.Wire.{
  magic_header, magic_trailer, version, max_entries, max_path_len, max_entry_bytes, ProtoError,
  bad_magic, bad_version, io, bad_path, too_large, Frame,
}
use seck.Wire.Endian.{from_le_bytes}

abbrev pub Read : Type 0 → Type 0
Read A = Result ProtoError (A × Bytes)

unfoldable pub read_exact : ℕ → Bytes → Read Bytes
read_exact n s = if leb n (length s) then ok (take n s, drop n s) else err io

unfoldable pub read_path : ℕ → Bytes → Read Bytes
read_path pl s = do
  guard (leb pl max_path_len) (too_large pl)
  (path, s) ← read_exact pl s
  guard (is_utf8 path) bad_path
  ok (path, s)

unfoldable pub read_bytes : ℕ → Bytes → Read Bytes
read_bytes bl s = do guard (leb bl max_entry_bytes) (too_large bl); read_exact bl s

-- the body of the loop
unfoldable pub read_entry : Bytes → Read Frame
read_entry s = do
  (pl, s) ← read_exact 4 s
  (path, s) ← read_path (from_le_bytes pl) s
  (bl, s) ← read_exact 8 s
  (bytes, s) ← read_bytes (from_le_bytes bl) s
  ok (record { relative_path = path; bytes = bytes }, s)

unfoldable pub read_entries : ℕ → Bytes → Read (List Frame)
read_entries zero s = ok ([], s)
read_entries (suc n) s = do
  (frame, s) ← read_entry s
  (frames, s) ← read_entries n s
  ok (frame ∷ frames, s)

-- the number of entries
unfoldable pub read_header : Bytes → Read ℕ
read_header s = do
  (magic, s) ← read_exact 4 s
  guard (equal magic magic_header) bad_magic
  (v, s) ← read_exact 2 s
  guard (from_le_bytes v == version) (bad_version (from_le_bytes v))
  (reserved, s) ← read_exact 2 s
  (n, s) ← read_exact 4 s
  guard (leb (from_le_bytes n) max_entries) (too_large (from_le_bytes n))
  ok (from_le_bytes n, s)

unfoldable pub read_trailer : List Frame → Bytes → Read (List Frame)
read_trailer out s = do
  (magic, s) ← read_exact 4 s
  guard (equal magic magic_trailer) bad_magic
  ok (out, s)

unfoldable pub read_frames : Bytes → Read (List Frame)
read_frames s = do (n, s) ← read_header s; (out, s) ← read_entries n s; read_trailer out s
