-- ===== src/Report/Schema.antt =====
-- How the report of crates/seck-report/src/schema.rs is read from a JSON value, which is what its
-- `#[derive(Deserialize)]` stands for.
use seck.Base.{ℕ, Text}
use seck.Base.Outcome.{Result, ok, ◌>>=◌, ◌>>◌}
use seck.Base.Strings.{codes}
use seck.Report.{Invocation, Input, Finding, Attestation, Report}
use seck.Report.Value.{
  Value, JsonError, field_at, is_struct, to_string, to_u64, to_f32, to_bool, to_vec, all_of,
}

unfoldable pub text_at : ℕ → Text → Value → Result JsonError Text
unfolding field_at
text_at i k v = do x ← field_at i k v; to_string x

unfoldable pub input_from : Value → Result JsonError Input
unfolding text_at is_struct
input_from v = do
  is_struct 4 v
  path ← text_at 0 (codes "path") v
  sha3_256 ← text_at 1 (codes "sha3_256") v
  s ← field_at 2 (codes "size") v
  size ← to_u64 s
  kind ← text_at 3 (codes "type") v
  ok record { path = path; sha3_256 = sha3_256; size = size; kind = kind }

unfoldable pub finding_from : Value → Result JsonError Finding
unfolding text_at is_struct
finding_from v = do
  is_struct 6 v
  id ← text_at 0 (codes "id") v
  summary ← text_at 1 (codes "summary") v
  fs ← field_at 2 (codes "files") v
  files ← to_vec to_string fs
  category ← text_at 3 (codes "category") v
  confidence ← text_at 4 (codes "confidence") v
  evidence_quote ← text_at 5 (codes "evidence_quote") v
  ok record {
    id = id;
    summary = summary;
    files = files;
    category = category;
    confidence = confidence;
    evidence_quote = evidence_quote;
  }

unfoldable pub attestation_from : Value → Result JsonError Attestation
unfolding text_at is_struct
attestation_from v = do
  is_struct 4 v
  platform ← text_at 0 (codes "platform") v
  sandbox_mode ← text_at 1 (codes "sandbox_mode") v
  profile_sha3_256 ← text_at 2 (codes "profile_sha3_256") v
  binary_sha3_256 ← text_at 3 (codes "binary_sha3_256") v
  ok record {
    platform = platform;
    sandbox_mode = sandbox_mode;
    profile_sha3_256 = profile_sha3_256;
    binary_sha3_256 = binary_sha3_256;
  }

unfoldable pub invocation_from : Value → Result JsonError Invocation
unfolding text_at is_struct
invocation_from v = do
  is_struct 10 v
  nonce_sha3_256 ← text_at 0 (codes "nonce_sha3_256") v
  started_at ← text_at 1 (codes "started_at") v
  finished_at ← text_at 2 (codes "finished_at") v
  sandbox_mode ← text_at 3 (codes "sandbox_mode") v
  backend ← text_at 4 (codes "backend") v
  model ← text_at 5 (codes "model") v
  model_sha3_256 ← text_at 6 (codes "model_sha3_256") v
  t ← field_at 7 (codes "temperature") v
  temperature ← to_f32 t
  s ← field_at 8 (codes "seed") v
  seed ← to_u64 s
  d ← field_at 9 (codes "deterministic") v
  deterministic ← to_bool d
  ok record {
    nonce_sha3_256 = nonce_sha3_256;
    started_at = started_at;
    finished_at = finished_at;
    sandbox_mode = sandbox_mode;
    backend = backend;
    model = model;
    model_sha3_256 = model_sha3_256;
    temperature = temperature;
    seed = seed;
    deterministic = deterministic;
  }

-- `serde_json::from_value::<Report>`
unfoldable pub report_from : Value → Result JsonError Report
unfolding text_at is_struct invocation_from attestation_from input_from finding_from all_of
report_from v = do
  is_struct 5 v
  version ← text_at 0 (codes "version") v
  i ← field_at 1 (codes "invocation") v
  invocation ← invocation_from i
  ins ← field_at 2 (codes "inputs") v
  inputs ← to_vec input_from ins
  fs ← field_at 3 (codes "findings") v
  findings ← to_vec finding_from fs
  a ← field_at 4 (codes "sandbox_attestation") v
  sandbox_attestation ← attestation_from a
  ok record {
    version = version;
    invocation = invocation;
    inputs = inputs;
    findings = findings;
    sandbox_attestation = sandbox_attestation;
  }
