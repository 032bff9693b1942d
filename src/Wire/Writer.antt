-- ===== src/Wire/Writer.antt =====
-- `write_fileset_protocol` of crates/seck-host/src/orchestrator.rs.
use seck.Base.{ℕ, ◌%◌, ◌^◌, sym, List, [], ◌∷◌, ◌++◌, append-nil, length, Bytes}
use seck.Base.Outcome.{ok}
use seck.Base.Utf8.{to_string_lossy}
use seck.Wire.{magic_header, magic_trailer, version, FileEntry}
use seck.Wire.Endian.{to_le_bytes}
use seck.Wire.Pipe.{
  Kernel, Write, ◌>>◌, write_to_sandbox_pipe, Sends, Sends->>, write_to_sandbox_pipe-Sends,
}

-- `n as u32`
abbrev pub as_u32 : ℕ → ℕ
as_u32 n = n % 2 ^ 32

unfoldable pub header : List FileEntry → Bytes
header entries =
    magic_header ++ (to_le_bytes 2 version ++ (0 ∷ 0 ∷ to_le_bytes 4 (as_u32 (length entries))))

unfoldable pub framing : FileEntry → Bytes
framing entry =
    let rel = to_string_lossy entry.relative in
    to_le_bytes 4 (as_u32 (length rel)) ++ (rel ++ to_le_bytes 8 entry.size)

module _ (kernel : Kernel) where
  unfoldable pub write_entries : List FileEntry → Write
  write_entries [] = λ p. (ok tt, p)
  write_entries (entry ∷ entries) =
      write_to_sandbox_pipe kernel (framing entry)
      >> write_to_sandbox_pipe kernel entry.bytes
      >> write_entries entries

  unfoldable pub write_fileset_protocol : List FileEntry → Write
  unfolding write_entries header framing
  write_fileset_protocol entries =
      write_to_sandbox_pipe kernel (header entries)
      >> write_entries entries
      >> write_to_sandbox_pipe kernel magic_trailer

-- The stream as one byte string.
unfoldable pub encode_entries : List FileEntry → Bytes
unfolding framing
encode_entries [] = []
encode_entries (entry ∷ entries) = (framing entry ++ entry.bytes) ++ encode_entries entries

unfoldable pub encode : List FileEntry → Bytes
unfolding header
encode entries = (header entries ++ encode_entries entries) ++ magic_trailer

module _ (kernel : Kernel) where
  sends : (d : Bytes) → Sends d (write_to_sandbox_pipe kernel d)
  sends = write_to_sandbox_pipe-Sends kernel

  write_entries-Sends :
      (entries : List FileEntry) → Sends (encode_entries entries) (write_entries kernel entries)
  unfolding write_entries encode_entries
  write_entries-Sends [] = record { at = λ p. sym (append-nil p.sent) }
  write_entries-Sends (entry ∷ entries) =
      Sends->> _ _ _ _ (Sends->> _ _ _ _ (sends (framing entry)) (sends entry.bytes))
        (write_entries-Sends entries)

  -- The host sends the encoding of its file set, or fails after a proper prefix of it, whatever
  -- the kernel answers.
  pub write_fileset_protocol-Sends :
      (entries : List FileEntry) → Sends (encode entries) (write_fileset_protocol kernel entries)
  unfolding write_fileset_protocol encode
  write_fileset_protocol-Sends entries =
      Sends->> _ _ _ _ (Sends->> _ _ _ _ (sends (header entries)) (write_entries-Sends entries))
        (sends magic_trailer)
