-- ===== src/Reader/PrivProcess.antt =====
-- The process `seck-reader-priv`, crates/seck-reader-priv/src/main.rs: from the messages on its
-- descriptor 3 to the report on its descriptor 5.
use seck.Base.{ℕ, none, List, [], ◌∷◌, map, Bytes, Text}
use seck.Base.Outcome.{Result, ok, err, ◌>>=◌, ◌>>◌, guard}
use seck.Base.Strings.{codes}
use seck.Report.Value.{Value, number, str, array, object, unsigned, items, fields}
use seck.Pipeline.{BackendError}
use seck.Reader.Ipc.{Message, IpcError, read_messages}
use seck.Reader.Analyze.{reader_config, stub, findings_or}
use seck.Reader.Priv.{PrivInput, start, on_messages, priv_prompt, priv_inputs}
use seck.Reader.Process.{
  Codec, library, Process, Written, warnings, model_path, invocation_json, attestation_json,
}

pub data PrivError : Type 0 where
  ipc : IpcError → PrivError
  backend : BackendError → PrivError
  write_report : PrivError

abbrev pub in_context {ℓ} :
    {E : Type 0} {A : Type ℓ} → (E → PrivError) → Result E A → Result PrivError A
in_context wrap (ok a) = ok a
in_context wrap (err e) = err (wrap e)

-- The parts of the report that the run determines.
pub record PrivReport : Type 0 where
  pub nonce_sha3_256 : Text
  pub model : Text
  pub temperature : ℕ
  pub seed : ℕ
  pub inputs : List PrivInput
  pub findings : Value

abbrev pub priv_input_json : PrivInput → Value
priv_input_json i = object (
    fields (
      (codes "path", str i.path)
      ∷ (codes "sha3_256_of_base64", str i.sha3_256_of_base64)
      ∷ (codes "size", number (unsigned i.size))
      ∷ (codes "type", str (codes "ipc-structured"))
      ∷ []))

module _ (c : Codec) where
  abbrev pub priv_empty : Value
  priv_empty = array (items [])

  -- The nonce is digested in its hexadecimal form.
  unfoldable pub priv_report_of : Bytes → List Message → Text → PrivReport
  unfolding priv_inputs on_messages findings_or
  priv_report_of model_path ms raw = record {
    nonce_sha3_256 =
        c.encoders.hex_encode (c.sha3_256 (on_messages c.encoders c.sha3_256 start ms).nonce_hex);
    model = model_path;
    temperature = (reader_config (library c) c.encoders model_path).temperature;
    seed = (reader_config (library c) c.encoders model_path).seed;
    inputs = priv_inputs c.encoders c.sha3_256 ms;
    findings = findings_or (library c) c.encoders priv_empty raw;
  }

  unfoldable pub priv_report_json : Text → Bytes → PrivReport → Value
  priv_report_json os profile_hash r = object (
      fields (
        (codes "version", str (codes "0.1.0"))
        ∷ (
          codes "invocation",
          invocation_json c r.nonce_sha3_256 (codes "B") r.model r.temperature r.seed,
        )
        ∷ (codes "inputs", array (items (map priv_input_json r.inputs)))
        ∷ (codes "findings", r.findings)
        ∷ (codes "sandbox_attestation", attestation_json c os (codes "B") profile_hash)
        ∷ []))

  unfoldable pub analyze_messages : Bytes → List Message → Result PrivError PrivReport
  unfolding priv_prompt priv_report_of
  analyze_messages model_path ms = do
    loaded ← in_context backend (stub.load (reader_config (library c) c.encoders model_path) none)
    (raw, s) ← in_context backend (stub.generate (priv_prompt c.encoders c.sha3_256 ms) loaded)
    ok (priv_report_of model_path ms raw)

  module _ (p : Process) where
    unfoldable pub write_priv : PrivReport → Result PrivError Written
    unfolding priv_report_json
    write_priv r = do
      guard (p.write5 (c.to_string (priv_report_json p.os p.bundled_profile_hash r))) write_report
      ok record { fd5 = c.to_string (priv_report_json p.os p.bundled_profile_hash r); fd7 = [] }

    unfoldable pub priv_main : Result PrivError Written × List Text
    unfolding analyze_messages write_priv warnings
    priv_main = (
      (do
        ms ← in_context ipc (read_messages c.message p.fd3)
        r ← analyze_messages (model_path p.seck_model_path) ms
        write_priv r),
      warnings (codes "seck-reader-priv") p.lockdown,
    )

    unfoldable pub priv_exit : ℕ
    unfolding priv_main
    priv_exit = elim priv_main.0 [ ok w ↦ 0 | err e ↦ 1 ]
