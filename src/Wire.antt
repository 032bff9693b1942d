-- ===== src/Wire.antt =====
-- The host-to-reader stream on FD 3: crates/seck-proto (constants, `ProtoError`), the host's
-- `write_fileset_protocol` (crates/seck-host/src/orchestrator.rs) and the reader's `read_frames`
-- (crates/seck-reader/src/protocol.rs). A pipe is the bytes that passed through it.
pub mod Endian
pub mod Pipe
pub mod Writer
pub mod Willing
pub mod Reader
pub mod RoundTrip
pub mod Torn
pub mod Bounds
pub mod Runs
use seck.Base.{ℕ, ◌*◌, Bytes, [], ◌∷◌}

abbrev pub magic_header : Bytes
magic_header = b'S' ∷ b'E' ∷ b'C' ∷ b'K' ∷ []

abbrev pub magic_trailer : Bytes
magic_trailer = b'D' ∷ b'O' ∷ b'N' ∷ b'E' ∷ []

abbrev pub version : ℕ
version = 1

abbrev pub max_entry_bytes : ℕ
max_entry_bytes = 16 * 1024 * 1024

abbrev pub max_entries : ℕ
max_entries = 10_000

abbrev pub max_path_len : ℕ
max_path_len = 4096

pub data ProtoError : Type 0 where
  bad_magic : ProtoError
  bad_version : ℕ → ProtoError
  short_read : ProtoError
  io : ProtoError
  bad_path : ProtoError
  too_large : ℕ → ProtoError

-- crates/seck-host/src/fileset.rs
pub record FileEntry : Type 0 where
  pub relative : Bytes
  pub bytes : Bytes
  pub size : ℕ

-- crates/seck-reader/src/protocol.rs
pub record Frame : Type 0 where
  pub relative_path : Bytes
  pub bytes : Bytes
