-- ===== src/Reader/Analyze.antt =====
-- `real_main` of crates/seck-reader/src/main.rs in its mode `analyze`, from the stream on FD 3 to the
-- report, with the backend of crates/seck-infer/src/stub.rs that it runs.
use seck.Base.{
  ℕ, true, false, Option, none, some, List, [], ◌∷◌, map, length, equal, if◌then◌else◌, Bytes, Text,
}
use seck.Base.Outcome.{Result, ok, err, ◌>>=◌}
use seck.Base.Strings.{codes, strip_prefix}
use seck.Base.Utf8.{is_utf8}
use seck.Wire.{ProtoError, Frame}
use seck.Wire.Reader.{read_frames}
use seck.Report.{Input}
use seck.Pipeline.{InferenceConfig, BackendError, generation, LlmBackend, Library}
use seck.Reader.Prompt.{Encoders, assemble}

-- `StubBackend`: the configuration that it was loaded with.
abbrev pub StubBackend : Type 0
StubBackend = Option InferenceConfig

abbrev pub stub_answer : Text
stub_answer =
    codes
      "{\"findings\":[{\"summary\":\"stub backend: no actual analysis was performed. The pipeline ran end-to-end and would emit real findings if a real LLM backend were configured.\",\"files\":[\"(all)\"],\"category\":\"note\",\"confidence\":\"low\",\"evidence_quote\":\"\"}]}"

unfoldable pub stub_generate : Text → StubBackend → Result BackendError (Text × StubBackend)
stub_generate prompt none = err (generation (codes "not loaded"))
stub_generate prompt (some cfg) = ok (stub_answer, some cfg)

abbrev pub stub : LlmBackend StubBackend
stub = record { load = λ cfg s. ok (some cfg); generate = stub_generate }

pub data Mode : Type 0 where
  analyze bytes_to_ipc : Mode

pub data ReaderError : Type 0 where
  unknown_mode : Text → ReaderError
  frames : ProtoError → ReaderError
  backend : BackendError → ReaderError
  csprng_fill write_report write_ipc : ReaderError

-- The last `--mode=` counts, and other arguments are passed over.
unfoldable pub parse_mode : List Text → Mode → Result ReaderError Mode
parse_mode [] mode = ok mode
parse_mode (arg ∷ args) mode = elim (strip_prefix (codes "--mode=") arg) [
  | none ↦ parse_mode args mode
  | some v ↦ elim (equal v (codes "analyze")) [
    | true ↦ parse_mode args analyze
    | false ↦ elim (equal v (codes "bytes-to-ipc")) [
      | true ↦ parse_mode args bytes_to_ipc
      | false ↦ err (unknown_mode v)
    ]
  ]
]

-- `.context(…)?`
abbrev pub in_context {ℓ} :
    {E : Type 0} {A : Type ℓ} → (E → ReaderError) → Result E A → Result ReaderError A
in_context wrap (ok a) = ok a
in_context wrap (err e) = err (wrap e)

module _ (lib : Library) (e : Encoders) where
  -- The parts of the report that the run determines; the other fields are constants.
  pub record ReaderReport : Type 0 where
    pub nonce_sha3_256 : Text
    pub model : Text
    pub temperature : ℕ
    pub seed : ℕ
    pub inputs : List Input
    pub findings : lib.Value

  abbrev pub input_of : Frame → Input
  input_of f = record {
    path = f.relative_path;
    sha3_256 = e.hex_encode (lib.sha3_256 f.bytes);
    size = length f.bytes;
    kind = if is_utf8 f.bytes then codes "text" else codes "binary";
  }

  -- `unwrap_or` of the findings, where `empty` is `json!([])`
  unfoldable pub findings_or : lib.Value → Text → lib.Value
  findings_or empty raw =
      let parsed : lib.Value = elim (lib.from_str raw) [ none ↦ lib.raw_object raw | some v ↦ v ] in
      elim (lib.get (codes "findings") parsed) [ none ↦ empty | some v ↦ v ]

  abbrev pub reader_config : Bytes → InferenceConfig
  reader_config model_path = record {
    model_path = model_path;
    temperature = 0;
    seed = 42;
    max_tokens = 1024;
    context_window = 8192;
  }

  -- 7.
  unfoldable pub report_of : lib.Value → Bytes → Bytes → List Frame → Text → ReaderReport
  unfolding findings_or
  report_of empty model_path nonce fs raw = record {
    nonce_sha3_256 = e.hex_encode (lib.sha3_256 nonce);
    model = model_path;
    temperature = (reader_config model_path).temperature;
    seed = (reader_config model_path).seed;
    inputs = map input_of fs;
    findings = findings_or empty raw;
  }

  -- 5. to 7.
  unfoldable pub analyze_frames :
      lib.Value → Bytes → Bytes → List Frame → Result ReaderError ReaderReport
  unfolding report_of
  analyze_frames empty model_path nonce fs = do
    loaded ← in_context backend (stub.load (reader_config model_path) none)
    (raw, s) ← in_context backend (stub.generate (assemble e nonce fs) loaded)
    ok (report_of empty model_path nonce fs raw)

  unfoldable pub real_main : lib.Value → Bytes → Bytes → Bytes → Result ReaderError ReaderReport
  unfolding analyze_frames
  real_main empty model_path nonce stream = do
    (fs, rest) ← in_context frames (read_frames stream)
    analyze_frames empty model_path nonce fs
