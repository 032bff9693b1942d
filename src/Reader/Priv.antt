-- ===== src/Reader/Priv.antt =====
-- `real_main` of crates/seck-reader-priv/src/main.rs, from the messages to the report.
use seck.Base.{ℕ, Bool, true, false, List, [], ◌∷◌, ◌++◌, Bytes, Text}
use seck.Base.Strings.{codes}
use seck.Reader.Prompt.{Encoders}
use seck.Reader.Ipc.{Message, header, file, end_files}

-- An entry of `inputs`; its type is always `ipc-structured`.
pub record PrivInput : Type 0 where
  pub path : Text
  pub sha3_256_of_base64 : Text
  pub size : ℕ

pub record PrivState : Type 0 where
  pub prompt : Text
  pub inputs_meta : List PrivInput
  pub nonce_hex : Text
  pub in_files : Bool

abbrev pub start : PrivState
start = record { prompt = []; inputs_meta = []; nonce_hex = []; in_files = false }

module _ (e : Encoders) (sha3_256 : Bytes → Bytes) where
  -- The body of the loop.
  unfoldable pub on_message : PrivState → Message → PrivState
  on_message s (header n system_prompt task_prompt) = record s {
    nonce_hex = n;
    prompt =
        s.prompt
        ++ (codes "<system>\n"
            ++ (system_prompt ++ (codes "\n</system>\n\n<files-begin-" ++ (n ++ codes ">\n"))));
    in_files = true;
  }
  on_message s (file relative_path content_base64 byte_count) = record s {
    prompt =
        s.prompt
        ++ (codes "<file path=\""
            ++ (relative_path
                ++ (codes "\">\n<bytes-begin-"
                    ++ (s.nonce_hex
                        ++ (codes ">\n"
                            ++ (content_base64
                                ++ (codes "\n<bytes-end-"
                                    ++ (s.nonce_hex ++ codes ">\n</file>\n"))))))));
    inputs_meta =
        s.inputs_meta
        ++ record {
          path = relative_path;
          sha3_256_of_base64 = e.hex_encode (sha3_256 content_base64);
          size = byte_count;
        }
          ∷ [];
  }
  on_message s end_files = elim s.in_files [
    | true ↦ record s {
      prompt = s.prompt ++ (codes "<files-end-" ++ (s.nonce_hex ++ codes ">\n\n"));
      in_files = false;
    }
    | false ↦ s
  ]

  unfoldable pub on_messages : PrivState → List Message → PrivState
  unfolding on_message
  on_messages s [] = s
  on_messages s (m ∷ ms) = on_messages (on_message s m) ms

  -- The prompt, with the default task behind the messages.
  unfoldable pub priv_prompt : List Message → Text
  unfolding on_messages
  priv_prompt ms =
      let s = on_messages start ms in
      s.prompt
      ++ (codes "<task>\nProduce a JSON object matching the report schema. The marker nonce is "
          ++ (s.nonce_hex ++ codes ".\n</task>\n"))

  unfoldable pub priv_inputs : List Message → List PrivInput
  unfolding on_messages
  priv_inputs ms = (on_messages start ms).inputs_meta
