-- ===== src/Pipeline/Run.antt =====
-- `run` of crates/seck-pipeline/src/lib.rs.
use seck.Base.{
  Bool, true, false, ◌&&◌, Option, none, some, List, [], ◌++◌, if◌then◌else◌, Bytes, Text,
}
use seck.Base.Outcome.{ok, ◌>>=◌}
use seck.Base.Strings.{codes}
use seck.Pipeline.{InferenceConfig, LlmBackend, Library, PipelineConfig}
use seck.Pipeline.Seed.{auditor, auditor_paranoid}
use seck.Pipeline.Passes.{AuditorOutput, Pass, run_analyst, run_auditor, run_judge}

module _ (lib : Library) where
  pub record PipelineResult : Type 0 where
    pub analyst_raw : Text
    pub auditor_passed : Bool
    pub auditor_flags : List Text
    pub auditor_raw : Text
    pub judge_verdict : Text
    pub judge_raw : Text
    pub findings_json : lib.Value
    pub analyst_surfaced_raw : Bool

  unfoldable pub has_findings_array : lib.Value → Bool
  has_findings_array v = elim (lib.get (codes "findings") v) [
    | none ↦ false
    | some f ↦ elim (lib.as_array f) [ none ↦ false | some a ↦ true ]
  ]

  -- The arm `Ok(v) if has_findings_array(&v)`
  unfoldable pub findings_of : Text → Option lib.Value
  unfolding has_findings_array
  findings_of raw = elim (lib.from_str raw) [
    | none ↦ none
    | some v ↦ if has_findings_array v then some v else none
  ]

  unfoldable pub tighter : Text → Text
  tighter prompt =
      prompt
      ++ codes
          "\n\nIMPORTANT: Your previous response was not valid JSON matching the required schema. Output ONLY valid JSON, nothing else, with a 'findings' array."

  -- `==` on the two answers
  abbrev pub same : Bool → Bool → Bool
  same true b = b
  same false true = false
  same false false = true

  unfoldable pub combine : AuditorOutput → AuditorOutput → AuditorOutput
  combine aud1 aud2 = record {
    passed = same aud1.passed aud2.passed && aud1.passed;
    flags = aud1.flags ++ aud2.flags;
    raw = codes "--- pass1 ---\n" ++ aud1.raw ++ codes "\n--- pass2 ---\n" ++ aud2.raw;
  }

  unfoldable pub skipped : Text → lib.Value → Bool → PipelineResult
  skipped analyst_raw findings surfaced = record {
    analyst_raw = analyst_raw;
    auditor_passed = true;
    auditor_flags = [];
    auditor_raw = codes "(skipped: lenient mode)";
    judge_verdict = codes "skipped";
    judge_raw = codes "(skipped: lenient mode)";
    findings_json = findings;
    analyst_surfaced_raw = surfaced;
  }

  module _ {S : Type 0} (backend : LlmBackend S) (cfg : InferenceConfig) (nonce : Bytes) where
    -- 1. and 2.: the analyst, whose first answer is kept, and the findings, of the first answer or
    -- of the second.
    unfoldable pub analyse : Text → Pass lib backend cfg nonce (Text × lib.Value × Bool)
    unfolding findings_of tighter
    analyse prompt s = do
      (a, s) ← run_analyst lib backend cfg nonce prompt s
      elim (findings_of a.raw) [
        | some v ↦ ok ((a.raw, v, false), s)
        | none ↦ do
          (retry, s) ← run_analyst lib backend cfg nonce (tighter prompt) s
          elim (findings_of retry.raw) [
            | some v ↦ ok ((a.raw, v, false), s)
            | none ↦ ok ((a.raw, lib.raw_object retry.raw, true), s)
          ]
      ]

    -- 3.
    unfoldable pub audit : Bool → Text → Pass lib backend cfg nonce AuditorOutput
    unfolding combine
    audit paranoid analyst_raw s = do
      (aud1, s) ← run_auditor lib backend cfg nonce auditor analyst_raw s
      elim paranoid [
        | false ↦ ok (aud1, s)
        | true ↦ do
          (aud2, s) ← run_auditor lib backend cfg nonce auditor_paranoid analyst_raw s
          ok (combine aud1 aud2, s)
      ]

    -- 3. and 4.
    unfoldable pub review :
        Bool → Text → lib.Value → Bool → Pass lib backend cfg nonce PipelineResult
    unfolding audit
    review paranoid analyst_raw findings surfaced s = do
      (aud, s) ← audit paranoid analyst_raw s
      (j, s) ← run_judge lib backend cfg nonce analyst_raw aud.raw s
      ok (
        record {
          analyst_raw = analyst_raw;
          auditor_passed = aud.passed;
          auditor_flags = aud.flags;
          auditor_raw = aud.raw;
          judge_verdict = j.verdict;
          judge_raw = j.raw;
          findings_json = findings;
          analyst_surfaced_raw = surfaced;
        },
        s,
      )

    unfoldable pub run : Text → PipelineConfig → Pass lib backend cfg nonce PipelineResult
    unfolding analyse review skipped
    run prompt pcfg s = do
      ((raw, findings, surfaced), s) ← analyse prompt s
      elim pcfg.lenient [
        | true ↦ ok (skipped raw findings surfaced, s)
        | false ↦ review pcfg.paranoid raw findings surfaced s
      ]
