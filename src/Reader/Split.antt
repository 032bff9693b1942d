-- ===== src/Reader/Split.antt =====
-- The two processes of approach B, one behind the other.
use seck.Base.{◌≡◌, refl, true, some, List, [], ◌∷◌, ◌++◌, map, equal, Bytes, Text}
use seck.Base.Outcome.{ok}
use seck.Base.Strings.{codes, strip_prefix}
use seck.Wire.{Frame}
use seck.Wire.Reader.{read_frames}
use seck.Reader.Ipc.{IsDocumented, emit_ipc, end_files}
use seck.Reader.Delivery.{messages, read_messages-emit_ipc}
use seck.Reader.Analyze.{analyze, bytes_to_ipc, parse_mode, stub_generate, stub_answer}
use seck.Reader.Handover.{priv_input_of, priv_inputs-messages}
use seck.Reader.Process.{Codec, Process, model_path, reader_main}
use seck.Reader.PrivProcess.{
  PrivReport, priv_report_of, priv_report_json, analyze_messages, priv_main,
}

-- The arguments with which approach B starts the process that holds the bytes.
abbrev pub bytes_args : List Text
bytes_args = codes "--protocol-version=1" ∷ codes "--mode=bytes-to-ipc" ∷ []

parse_mode-bytes_args : parse_mode bytes_args analyze ≡ ok bytes_to_ipc
unfolding parse_mode strip_prefix equal
parse_mode-bytes_args = refl

module _ (c : Codec) where
  abbrev pub as_bytes_child : Process → Bytes → Process
  as_bytes_child p s = record p { args = bytes_args; fd3 = s }

  pub reader_main-bytes :
      (p : Process) (s nonce rest : Bytes) (fs : List Frame)
      → read_frames s ≡ ok (fs, rest)
      → p.random_nonce ≡ some nonce
      → ((b : Bytes) → p.write7 b ≡ true)
      → (reader_main c (as_bytes_child p s)).0
        ≡ ok (record { fd5 = []; fd7 = emit_ipc c.message c.encoders nonce fs })
  unfolding reader_main
  reader_main-bytes p s nonce rest fs e n w =
      rw (parse_mode-bytes_args, reader_main) (rw (e, n, w) refl)

  module _ (d : IsDocumented c.message) where
    -- The report on the messages for the frames.
    abbrev pub split_report : Process → Bytes → List Frame → PrivReport
    split_report q nonce fs =
        priv_report_of c (model_path q.seck_model_path)
          (messages c.message d c.encoders nonce fs ++ end_files ∷ []) stub_answer

    pub priv_main-messages :
        (q : Process) (nonce : Bytes) (fs : List Frame)
        → ((b : Bytes) → q.write5 b ≡ true)
        → (priv_main c (record q { fd3 = emit_ipc c.message c.encoders nonce fs })).0
          ≡ ok (record {
            fd5 =
                c.to_string
                  (priv_report_json c q.os q.bundled_profile_hash (split_report q nonce fs));
            fd7 = [];
          })
    unfolding priv_main analyze_messages stub_generate
    priv_main-messages q nonce fs w =
        rw (read_messages-emit_ipc c.message d c.encoders nonce fs, w) refl

    pub split_report-inputs :
        (q : Process) (nonce : Bytes) (fs : List Frame)
        → (split_report q nonce fs).inputs ≡ map (priv_input_of c.encoders c.sha3_256) fs
    unfolding priv_report_of
    split_report-inputs q nonce fs = priv_inputs-messages c.encoders c.sha3_256 c.message d nonce fs
