-- ===== src/Pipeline/Runs.antt =====
-- A backend that plays back a script, and the theorems of `Pipeline` with it.
use seck.Base.{◌≡◌, refl, true, false, none, some, List, [], ◌∷◌, if◌then◌else◌, Text, Bytes}
use seck.Base.Outcome.{Result, ok, err, ◌>>=◌}
use seck.Base.Strings.{codes, starts_with, contains}
use seck.Pipeline.{InferenceConfig, generation, BackendError, LlmBackend, Library, PipelineConfig}
use seck.Pipeline.Seed.{derive_pass_seed, analyst}
use seck.Pipeline.Passes.{AnalystOutput, run_analyst}
use seck.Pipeline.Run.{PipelineResult, findings_of, tighter, review, run}
use seck.Pipeline.Unaudited.{retry_unaudited}

-- An object is a text that starts with a brace, and has every key that occurs in it.
abbrev pub simple : Library
simple = record {
  Value = Text;
  from_str = λ t. if starts_with (codes "{") t then some t else none;
  get = λ key v. if contains key v then some v else none;
  as_array = λ v. some (v ∷ []);
  as_str = λ v. some v;
  raw_object = λ t. t;
  to_uppercase = λ t. t;
  to_lowercase = λ t. t;
  sha3_256 = λ m. m;
}

abbrev pop : Text → List Text → Result BackendError (Text × List Text)
pop prompt [] = err (generation (codes "end"))
pop prompt (t ∷ ts) = ok (t, ts)

abbrev script : LlmBackend (List Text)
script = record { load = λ cfg s. ok s; generate = pop }

abbrev cfg : InferenceConfig
cfg = record { model_path = []; temperature = 7; seed = 1; max_tokens = 10; context_window = 10 }

abbrev nonce : Bytes
nonce = codes "nonce"

abbrev paranoid : PipelineConfig
paranoid = record { paranoid = true; lenient = false }

-- The second answer has the findings; both auditors and the judge are content.
abbrev answers : List Text
answers = codes "sorry" ∷ codes "{findings}" ∷ codes "NO" ∷ codes "NO." ∷ codes "agreement" ∷ []

abbrev result : PipelineResult simple
result = record {
  analyst_raw = codes "sorry";
  auditor_passed = true;
  auditor_flags = [];
  auditor_raw = codes "--- pass1 ---\nNO\n--- pass2 ---\nNO.";
  judge_verdict = codes "agreement";
  judge_raw = codes "agreement";
  findings_json = codes "{findings}";
  analyst_surfaced_raw = false;
}

no_findings : findings_of simple (codes "sorry") ≡ none
unfolding findings_of starts_with
no_findings = refl

has_findings : findings_of simple (codes "{findings}") ≡ some (codes "{findings}")
unfolding findings_of starts_with contains
has_findings = refl

-- What the analyst's pass makes of an answer.
abbrev analysis : Text → AnalystOutput
analysis raw = record { raw = raw; seed_used = derive_pass_seed simple nonce analyst }

abbrev reviews : List Text
reviews = codes "NO" ∷ codes "NO." ∷ codes "agreement" ∷ []

run_analyst-script :
    (prompt raw : Text) (rest : List Text)
    → run_analyst simple script cfg nonce prompt (raw ∷ rest) ≡ ok (analysis raw, rest)
unfolding run_analyst
run_analyst-script prompt raw rest = refl

retry_unaudited_example : run simple script cfg nonce (codes "p") paranoid answers ≡ (
    review simple script cfg nonce true (codes "sorry") (codes "{findings: none}") false reviews
    >>= λ x. ok (record x.0 { findings_json = codes "{findings}" }, x.1))
retry_unaudited_example =
    retry_unaudited simple script cfg nonce (codes "p") paranoid (analysis (codes "sorry"))
      (analysis (codes "{findings}")) (codes "{findings}") answers (codes "{findings}" ∷ reviews)
      reviews refl (run_analyst-script (codes "p") (codes "sorry") (codes "{findings}" ∷ reviews))
      no_findings (run_analyst-script (tighter simple (codes "p")) (codes "{findings}") reviews)
      has_findings (codes "{findings: none}")
