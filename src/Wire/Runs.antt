-- ===== src/Wire/Runs.antt =====
-- Runs of the host's writer and the reader's parser, and the theorems of `Wire` at concrete inputs.
use seck.Base.{
  ◌≤◌, ◌≡◌, refl, arith, List, [], ◌∷◌, ◌++◌, map, length, none, some, true, zero, suc, equal, All,
}
use seck.Base.Outcome.{ok, err}
use seck.Base.Utf8.{is_utf8, to_string_lossy, is_utf8-to_string_lossy}
use seck.Wire.{max_entries, magic_header, bad_magic, bad_version, io, too_large, FileEntry, Frame}
use seck.Wire.Endian.{to_le_bytes, from_le_bytes}
use seck.Wire.Pipe
use seck.Wire.Pipe.{Kernel, Pipe, Sends, write_to_sandbox_pipe}
use seck.Wire.Writer.{
  header, framing, encode_entries, encode, write_fileset_protocol, write_fileset_protocol-Sends,
}
use seck.Wire.Reader.{
  read_exact, read_path, read_bytes, read_entry, read_entries, read_header, read_trailer,
  read_frames,
}
use seck.Wire.RoundTrip.{Fits, frame_of, framed, read_frames-encode}
use seck.Wire.Torn.{IsForgery, read_frames_forged}
use seck.Wire.Bounds.{IsBounded, read_frames_sound}

abbrev note : FileEntry
note = record { relative = b'a' ∷ []; bytes = b'h' ∷ b'i' ∷ []; size = 2 }

-- a path that is not UTF-8
abbrev odd : FileEntry
odd = record { relative = b'b' ∷ 0xFF ∷ []; bytes = []; size = 0 }

abbrev pub two_files : List FileEntry
two_files = note ∷ odd ∷ []

abbrev idle : Pipe
idle = record { calls = 0; sent = [] }

-- A kernel that takes at most five bytes a call, and one that fails after its first call.
abbrev slow : Kernel
slow k = some 5

abbrev broken : Kernel
broken zero = some 5
broken (suc k) = none

pub two_files-Fits : All Fits two_files
unfolding to_string_lossy
two_files-Fits = (
  record { path_fits = omega arith; bytes_fit = omega arith; is_whole = refl },
  (record { path_fits = omega arith; bytes_fit = omega arith; is_whole = refl }, tt),
)

abbrev two_frames : List Frame
two_frames =
    record { relative_path = b'a' ∷ []; bytes = b'h' ∷ b'i' ∷ [] }
    ∷ record { relative_path = b'b' ∷ 0xEF ∷ 0xBF ∷ 0xBD ∷ []; bytes = [] }
    ∷ []

read_two : read_frames (encode two_files) ≡ ok (two_frames, [])
unfolding read_frames read_header read_entries read_entry read_path read_bytes read_trailer
    read_exact encode encode_entries header framing to_le_bytes from_le_bytes to_string_lossy
    is_utf8 equal
read_two = refl

read_errors :
    (read_frames [] ≡ err io)
    × (read_frames (b'X' ∷ b'E' ∷ b'C' ∷ b'K' ∷ []) ≡ err bad_magic)
    × (read_frames (magic_header ++ (2 ∷ 0 ∷ [])) ≡ err (bad_version 2))
    × (read_frames (magic_header ++ (1 ∷ 0 ∷ 0 ∷ 0 ∷ 0x11 ∷ 0x27 ∷ 0 ∷ 0 ∷ []))
        ≡ err (too_large 10001))
unfolding read_frames read_header read_exact from_le_bytes equal
read_errors = (refl, refl, refl, refl)

write_slow : (write_fileset_protocol slow two_files idle).1.sent ≡ encode two_files
unfolding write_fileset_protocol write_to_sandbox_pipe encode encode_entries header framing
    to_le_bytes to_string_lossy
write_slow = refl

write_broken : (write_fileset_protocol broken two_files idle).0 ≡ err Pipe.io
unfolding write_fileset_protocol write_to_sandbox_pipe encode encode_entries header framing
    to_le_bytes to_string_lossy
write_broken = refl

write_fileset_protocol-Sends_example :
    Sends (encode two_files) (write_fileset_protocol broken two_files)
write_fileset_protocol-Sends_example = write_fileset_protocol-Sends broken two_files

is_utf8-to_string_lossy_example : is_utf8 (to_string_lossy (b'b' ∷ 0xFF ∷ [])) ≡ true
is_utf8-to_string_lossy_example = is_utf8-to_string_lossy (b'b' ∷ 0xFF ∷ [])

read_frames-encode_example :
    read_frames (encode two_files ++ (7 ∷ [])) ≡ ok (map frame_of two_files, 7 ∷ [])
read_frames-encode_example = read_frames-encode two_files (7 ∷ []) (omega arith) two_files-Fits

read_frames_sound_example : (length two_frames ≤ max_entries) × All IsBounded two_frames
read_frames_sound_example = read_frames_sound (encode two_files) [] two_frames read_two

-- The second file's content is the frame of a file `p` that the host never walked.
abbrev carrier : FileEntry
carrier = record { relative = b'z' ∷ []; bytes = framed (b'p' ∷ []) 1 (b'x' ∷ []); size = 14 }

abbrev shrunk : FileEntry
shrunk = record { relative = b'a' ∷ []; bytes = []; size = 13 }

shrunk-IsForgery : IsForgery shrunk carrier (b'p' ∷ []) (b'x' ∷ [])
unfolding framing to_le_bytes to_string_lossy is_utf8
shrunk-IsForgery = record {
  path_fits = omega arith;
  bytes_fit = omega arith;
  short_by = refl;
  carries = refl;
  q_valid = refl;
  q_fits = omega arith;
  c_fits = omega arith;
}

read_frames_forged_example :
    read_frames (encode (shrunk ∷ carrier ∷ []))
    ≡ ok (
      record { relative_path = to_string_lossy (b'a' ∷ []); bytes = framing carrier }
          ∷ record { relative_path = b'p' ∷ []; bytes = b'x' ∷ [] }
          ∷ [],
      [],
    )
read_frames_forged_example =
    read_frames_forged shrunk carrier (b'p' ∷ []) (b'x' ∷ []) shrunk-IsForgery
