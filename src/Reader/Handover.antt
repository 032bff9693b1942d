-- ===== src/Reader/Handover.antt =====
-- The readers from end to end: what either report lists of the files sent.
use seck.Base.{
  Text, if◌then◌else◌, ◌≤◌, ◌≡◌, refl, sym, ap, ◌∙◌, Bool, true, false, List, [], ◌∷◌, ◌++◌, map,
  append-nil, append_assoc, length, All, Bytes,
}
use seck.Base.Outcome.{ok, ◌>>=◌}
use seck.Base.Strings.{codes}
use seck.Base.Utf8.{is_utf8, to_string_lossy}
use seck.Report.{Input}
use seck.Wire.{max_entries, FileEntry, Frame}
use seck.Wire.Writer.{encode}
use seck.Wire.RoundTrip.{Fits, frame_of, read_frames-encode}
use seck.Pipeline.{Library}
use seck.Reader.Prompt.{Encoders}
use seck.Reader.Ipc.{end_files, Json, IsDocumented, file_message, read_messages, emit_ipc}
use seck.Reader.Delivery.{messages, read_messages-emit_ipc}
use seck.Reader.Priv.{PrivInput, PrivState, on_message, on_messages, priv_inputs}
use seck.Reader.Analyze.{ReaderReport, input_of, report_of, real_main, stub_generate, stub_answer}

module _ (e : Encoders) (sha3_256 : Bytes → Bytes) where
  abbrev pub priv_input_of : Frame → PrivInput
  priv_input_of f = record {
    path = f.relative_path;
    sha3_256_of_base64 = e.hex_encode (sha3_256 (e.base64_encode f.bytes));
    size = length f.bytes;
  }

  on_messages-inputs :
      (j : Json) (fs : List Frame) (s : PrivState)
      → (on_messages e sha3_256 s (map (file_message j e) fs ++ end_files ∷ [])).inputs_meta
        ≡ s.inputs_meta ++ map priv_input_of fs
  unfolding on_messages on_message
  on_messages-inputs j [] s = closed s.in_files refl ∙ sym (append-nil s.inputs_meta)
    where
      closed :
          (b : Bool)
          → s.in_files ≡ b
          → (on_message e sha3_256 s end_files).inputs_meta ≡ s.inputs_meta
      closed true h = rw (h, on_message) refl
      closed false h = rw (h, on_message) refl
  on_messages-inputs j (f ∷ fs) s =
      on_messages-inputs j fs (on_message e sha3_256 s (file_message j e f))
      ∙ append_assoc s.inputs_meta (priv_input_of f ∷ []) (map priv_input_of fs)

  pub priv_inputs-messages :
      (j : Json) (d : IsDocumented j) (nonce : Bytes) (fs : List Frame)
      → priv_inputs e sha3_256 (messages j d e nonce fs ++ end_files ∷ []) ≡ map priv_input_of fs
  unfolding priv_inputs on_messages on_message
  priv_inputs-messages j d nonce fs = on_messages-inputs j fs _

  -- The reader without the bytes, fed with what the reader with the bytes sends, lists every file,
  -- in order, with its path, the digest of its base64 form and its size in bytes, if JSON works as
  -- documented.
  pub handover :
      (j : Json)
      → IsDocumented j
      → (nonce : Bytes) (frames : List Frame)
      → (read_messages j (emit_ipc j e nonce frames) >>= λ ms. ok (priv_inputs e sha3_256 ms))
        ≡ ok (map priv_input_of frames)
  handover j d nonce frames =
      rw (read_messages-emit_ipc j d e nonce frames) (ap ok (priv_inputs-messages j d nonce frames))

-- What is said of a file with a path and a content: its path, its digest, its size, and whether it is
-- text.
abbrev pub described : Library → Encoders → Text → Bytes → Input
described lib e path content = record {
  path = path;
  sha3_256 = e.hex_encode (lib.sha3_256 content);
  size = length content;
  kind = if is_utf8 content then codes "text" else codes "binary";
}

input_of-described :
    (lib : Library) (e : Encoders) (es : List FileEntry)
    → map (input_of lib e) (map frame_of es)
      ≡ map (λ f. described lib e (to_string_lossy f.relative) f.bytes) es
input_of-described lib e [] = refl
input_of-described lib e (f ∷ es) =
    ap (◌∷◌ (input_of lib e (frame_of f))) (input_of-described lib e es)

-- The reader that holds the bytes turns the host's stream of a file set within its limits into a
-- report, with one input for each file, in order: its path as UTF-8, its digest, its size, and the type
-- text or binary as it is valid UTF-8 or not.
pub real_main-encode :
    (lib : Library) (e : Encoders) (empty : lib.Value) (model_path nonce : Bytes)
    (es : List FileEntry) (s : Bytes)
    → length es ≤ max_entries
    → All Fits es
    → (r : ReaderReport lib e) × (real_main lib e empty model_path nonce (encode es ++ s) ≡ ok r)
      × (r.inputs ≡ map (λ f. described lib e (to_string_lossy f.relative) f.bytes) es)
unfolding real_main stub_generate report_of
real_main-encode lib e empty model_path nonce es s few fit = (
  report_of lib e empty model_path nonce (map frame_of es) stub_answer,
  rw (read_frames-encode es s few fit) refl,
  input_of-described lib e es,
)
