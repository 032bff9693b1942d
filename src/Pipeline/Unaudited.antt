-- ===== src/Pipeline/Unaudited.antt =====
-- The findings and the audit: the auditors and the judge read the analyst's first answer alone.
use seck.Base.{◌≡◌, refl, Bool, false, inl, inr, none, some, Bytes, Text}
use seck.Base.Outcome.{ok, ◌>>=◌, Result-cases}
use seck.Pipeline.{InferenceConfig, LlmBackend, Library, PipelineConfig}
use seck.Pipeline.Passes.{AnalystOutput, run_analyst, run_judge}
use seck.Pipeline.Run.{findings_of, tighter, analyse, audit, review, run}

module _ (lib : Library) {S : Type 0} (backend : LlmBackend S) (cfg : InferenceConfig)
    (nonce : Bytes) where
  review_findings :
      (paranoid : Bool) (raw : Text) (v w : lib.Value) (b : Bool) (s : S)
      → review lib backend cfg nonce paranoid raw w b s ≡ (
          review lib backend cfg nonce paranoid raw v b s >>= λ x.
          ok (record x.0 { findings_json = w }, x.1))
  unfolding review
  review_findings paranoid raw v w b s =
      elim (Result-cases (audit lib backend cfg nonce paranoid raw s)) [
        | inr (e, h) ↦ rw h refl
        | inl ((aud, s₁), h) ↦
            rw h (elim (Result-cases (run_judge lib backend cfg nonce raw aud.raw s₁)) [
              | inr (e, k) ↦ rw k refl
              | inl ((j, s₂), k) ↦ rw k refl
            ])
      ]

  analyse_retry :
      (prompt : Text) (first retry : AnalystOutput) (w : lib.Value) (s s₁ s₂ : S)
      → run_analyst lib backend cfg nonce prompt s ≡ ok (first, s₁)
      → findings_of lib first.raw ≡ none
      → run_analyst lib backend cfg nonce (tighter lib prompt) s₁ ≡ ok (retry, s₂)
      → findings_of lib retry.raw ≡ some w
      → analyse lib backend cfg nonce prompt s ≡ ok ((first.raw, w, false), s₂)
  unfolding analyse
  analyse_retry prompt first retry w s s₁ s₂ e n e₂ f = rw (e, ◌>>=◌, n, e₂, f) refl

  -- Lenient mode aside, if the first answer has no findings and the second has, the report shows the
  -- findings of the second, while the whole review, prompts, answers and verdict, is that of the first
  -- answer: with any other findings `v` it would have been the same.
  pub retry_unaudited :
      (prompt : Text) (pcfg : PipelineConfig) (first retry : AnalystOutput) (w : lib.Value)
      (s s₁ s₂ : S)
      → pcfg.lenient ≡ false
      → run_analyst lib backend cfg nonce prompt s ≡ ok (first, s₁)
      → findings_of lib first.raw ≡ none
      → run_analyst lib backend cfg nonce (tighter lib prompt) s₁ ≡ ok (retry, s₂)
      → findings_of lib retry.raw ≡ some w
      → (v : lib.Value)
      → run lib backend cfg nonce prompt pcfg s ≡ (
          review lib backend cfg nonce pcfg.paranoid first.raw v false s₂ >>= λ x.
          ok (record x.0 { findings_json = w }, x.1))
  unfolding run
  retry_unaudited prompt pcfg first retry w s s₁ s₂ l e n e₂ f v =
      let got = analyse_retry prompt first retry w s s₁ s₂ e n e₂ f in
      rw got (rw l (review_findings pcfg.paranoid first.raw v w false s₂))
