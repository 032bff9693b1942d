-- ===== src/Reader/Process.antt =====
-- The process `seck-reader`, crates/seck-reader/src/main.rs: from what it is given to what it writes to
-- the descriptors 5 and 7. The lockdown, the random numbers, the writes and JSON are parameters.
use seck.Base.{ℕ, Bool, true, Option, none, some, List, [], ◌∷◌, ◌++◌, map, Bytes, Text}
use seck.Base.Outcome.{Result, ok, err, ◌>>=◌, ◌>>◌, guard}
use seck.Base.Strings.{codes}
use seck.Wire.{Frame}
use seck.Wire.Reader.{read_frames}
use seck.Report.{Input}
use seck.Report.Value.{
  Value, bool, number, str, array, object, unsigned, float, items, fields, get, as_array, as_str,
}
use seck.Pipeline.{Library}
use seck.Reader.Prompt.{Encoders}
use seck.Reader.Ipc.{Json, emit_ipc}
use seck.Reader.Analyze.{
  Mode, analyze, bytes_to_ipc, ReaderError, frames, csprng_fill, write_report, write_ipc,
  parse_mode, in_context, ReaderReport, analyze_frames,
}

-- serde_json, `char`'s case and `Display` of an `f32`, hex and base64, and SHA3-256.
pub record Codec : Type 0 where
  pub from_str : Text → Option Value
  pub to_string : Value → Text
  pub message : Json
  pub show_f32 : ℕ → Text
  pub to_uppercase : Text → Text
  pub to_lowercase : Text → Text
  pub encoders : Encoders
  pub sha3_256 : Bytes → Bytes

abbrev pub library : Codec → Library
library c = record {
  Value = Value;
  from_str = c.from_str;
  get = get;
  as_array = as_array;
  as_str = as_str;
  raw_object = λ t. object (fields ((codes "raw", str t) ∷ []));
  to_uppercase = c.to_uppercase;
  to_lowercase = c.to_lowercase;
  sha3_256 = c.sha3_256;
}

-- `lockdown` is the text of its error, if it failed; `args` come behind the program's name; the
-- writes tell whether all bytes went out.
pub record Process : Type 0 where
  pub args : List Text
  pub seck_model_path : Option Bytes
  pub lockdown : Option Text
  pub fd3 : Bytes
  pub random_nonce : Option Bytes
  pub write5 : Bytes → Bool
  pub write7 : Bytes → Bool
  pub os : Text
  pub bundled_profile_hash : Bytes

pub record Written : Type 0 where
  pub fd5 : Bytes
  pub fd7 : Bytes

abbrev pub required {ℓ} : {A : Type ℓ} → ReaderError → Option A → Result ReaderError A
required e none = err e
required e (some a) = ok a

-- What is printed on standard error.
unfoldable pub warnings : Text → Option Text → List Text
warnings name none = []
warnings name (some e) =
    (name ++ (codes ": sandbox unavailable (" ++ (e ++ codes "); running unsandboxed"))) ∷ []

abbrev pub model_path : Option Bytes → Bytes
model_path none = codes "(none — stub backend)"
model_path (some p) = p

abbrev pub input_json : Input → Value
input_json i = object (
    fields (
      (codes "path", str i.path)
      ∷ (codes "sha3_256", str i.sha3_256)
      ∷ (codes "size", number (unsigned i.size))
      ∷ (codes "type", str i.kind)
      ∷ []))

module _ (c : Codec) where
  -- The fields of the invocation, of which both readers have the same.
  abbrev pub invocation_json : Text → Text → Text → ℕ → ℕ → Value
  invocation_json nonce_sha3_256 sandbox_mode model temperature seed = object (
      fields (
        (codes "nonce_sha3_256", str nonce_sha3_256)
        ∷ (codes "started_at", str [])
        ∷ (codes "finished_at", str [])
        ∷ (codes "sandbox_mode", str sandbox_mode)
        ∷ (codes "backend", str (codes "stub"))
        ∷ (codes "model", str model)
        ∷ (codes "model_sha3_256", str [])
        ∷ (codes "temperature", number (float (c.show_f32 temperature)))
        ∷ (codes "seed", number (unsigned seed))
        ∷ (codes "deterministic", bool true)
        ∷ []))

  abbrev pub attestation_json : Text → Text → Bytes → Value
  attestation_json os sandbox_mode profile_hash = object (
      fields (
        (codes "platform", str os)
        ∷ (codes "sandbox_mode", str sandbox_mode)
        ∷ (codes "profile_sha3_256", str (c.encoders.hex_encode profile_hash))
        ∷ (codes "binary_sha3_256", str [])
        ∷ []))

  -- The report as JSON, with its constant fields.
  unfoldable pub report_json : Text → Bytes → ReaderReport (library c) c.encoders → Value
  report_json os profile_hash r = object (
      fields (
        (codes "version", str (codes "0.1.0"))
        ∷ (
          codes "invocation",
          invocation_json r.nonce_sha3_256 (codes "A") r.model r.temperature r.seed,
        )
        ∷ (codes "inputs", array (items (map input_json r.inputs)))
        ∷ (codes "findings", r.findings)
        ∷ (codes "sandbox_attestation", attestation_json os (codes "A") profile_hash)
        ∷ []))

  module _ (p : Process) where
    -- 8.
    unfoldable pub write_out : ReaderReport (library c) c.encoders → Result ReaderError Written
    unfolding report_json
    write_out r = do
      guard (p.write5 (c.to_string (report_json p.os p.bundled_profile_hash r))) write_report
      ok record { fd5 = c.to_string (report_json p.os p.bundled_profile_hash r); fd7 = [] }

    unfoldable pub send_ipc : Bytes → List Frame → Result ReaderError Written
    send_ipc nonce fs = do
      guard (p.write7 (emit_ipc c.message c.encoders nonce fs)) write_ipc
      ok record { fd5 = []; fd7 = emit_ipc c.message c.encoders nonce fs }

    unfoldable pub run_mode : Mode → List Frame → Result ReaderError Written
    unfolding write_out send_ipc
    run_mode bytes_to_ipc fs = do nonce ← required csprng_fill p.random_nonce; send_ipc nonce fs
    run_mode analyze fs = do
      nonce ← required csprng_fill p.random_nonce
      r ←
          analyze_frames (library c) c.encoders (array (items [])) (model_path p.seck_model_path)
            nonce fs
      write_out r

    -- A failed lockdown is warned of, and the run goes on.
    unfoldable pub reader_main : Result ReaderError Written × List Text
    unfolding run_mode warnings
    reader_main = elim (parse_mode p.args analyze) [
      | err e ↦ (err e, [])
      | ok mode ↦ (
        (do (fs, rest) ← in_context frames (read_frames p.fd3); run_mode mode fs),
        warnings (codes "seck-reader") p.lockdown,
      )
    ]

    -- The exit status.
    unfoldable pub entry : ℕ
    unfolding reader_main
    entry = elim reader_main.0 [ ok w ↦ 0 | err e ↦ 1 ]
