-- ===== src/Pipeline/Verdict.antt =====
-- What a report of the pipeline holds: its verdict and its findings.
use seck.Base.{
  ◌≡◌, ◌⊎◌, inl, inr, refl, sym, ap, subst, ◌∙◌, Bool, true, false, ◌&&◌, not, none, some,
  Bool-cases, Option-cases, if◌then◌else◌, Bytes, Text,
}
use seck.Base.Outcome.{ok, bind-eq-ok, ok-injective}
use seck.Base.Strings.{codes, contains}
use seck.Pipeline.{InferenceConfig, LlmBackend, Library, PipelineConfig}
use seck.Pipeline.Passes.{verdict_of, run_analyst, run_judge, ask}
use seck.Pipeline.Run.{
  PipelineResult, has_findings_array, findings_of, tighter, skipped, analyse, audit, review, run,
}

abbrev pub IsVerdict : Text → Type 0
IsVerdict v = (v ≡ codes "agreement") ⊎ (v ≡ codes "disagreement") ⊎ (v ≡ codes "escalate")

verdict_of-IsVerdict : (first : Text) → IsVerdict (verdict_of first)
unfolding verdict_of
verdict_of-IsVerdict first =
    go (contains (codes "agree") first && not (contains (codes "dis") first))
      (contains (codes "disag") first)
  where
    go :
        (a d : Bool)
        → IsVerdict
            (if a then codes "agreement" else if d then codes "disagreement" else codes "escalate")
    go true d = inl refl
    go false true = inr (inl refl)
    go false false = inr (inr refl)

module _ (lib : Library) where
  findings_of-has :
      (raw : Text) (v : lib.Value) → findings_of lib raw ≡ some v → has_findings_array lib v ≡ true
  unfolding findings_of
  findings_of-has raw v h = elim (Option-cases (lib.from_str raw)) [
    | inl e ↦ cc (rw (e, findings_of) at h)
    | inr (w, e) ↦ guarded w (has_findings_array lib w) refl (rw (e, findings_of) at h)
  ]
    where
      guarded :
          (w : lib.Value) (b : Bool)
          → has_findings_array lib w ≡ b
          → (if b then some w else none) ≡ some v
          → has_findings_array lib v ≡ true
      guarded w true e k = rw (sym (some_injective k)) e
        where
          some_injective : {x y : lib.Value} → some x ≡ some y → x ≡ y
          some_injective e = cc
      guarded w false e k = cc

  module _ {S : Type 0} (backend : LlmBackend S) (cfg : InferenceConfig) (nonce : Bytes) where
    -- Either the findings have their array, or the report is marked as raw.
    pub record IsShaped (findings : lib.Value) (surfaced : Bool) : Type 0 where
      pub shape : (has_findings_array lib findings ≡ true) ⊎ (surfaced ≡ true)

    analyse-IsShaped :
        (prompt : Text) (s s' : S) (raw : Text) (v : lib.Value) (b : Bool)
        → analyse lib backend cfg nonce prompt s ≡ ok ((raw, v, b), s')
        → IsShaped v b
    unfolding analyse
    analyse-IsShaped prompt s s' raw v b h =
        let ((a, s₁), e, h₁) = bind-eq-ok (run_analyst lib backend cfg nonce prompt s) _ h in
        elim (Option-cases (findings_of lib a.raw)) [
          | inr (w, f) ↦
              let k = ok-injective (rw f at h₁) in
              record { shape = inl (findings_of-has a.raw v (f ∙ ap (λ x. some x.0.1) k)) }
          | inl f ↦
              let ((r, s₂), e₂, h₂) =
                bind-eq-ok (run_analyst lib backend cfg nonce (tighter lib prompt) s₁) _
                  (rw f at h₁) in
              elim (Option-cases (findings_of lib r.raw)) [
                | inr (w, g) ↦
                    let k = ok-injective (rw g at h₂) in
                    record { shape = inl (findings_of-has r.raw v (g ∙ ap (λ x. some x.0.1) k)) }
                | inl g ↦
                    let k = ok-injective (rw g at h₂) in
                    record { shape = inr (ap (λ x. x.0.2) (sym k)) }
              ]
        ]

    review-IsVerdict :
        (paranoid : Bool) (raw : Text) (v : lib.Value) (b : Bool) (s s' : S)
        (r : PipelineResult lib)
        → review lib backend cfg nonce paranoid raw v b s ≡ ok (r, s')
        → IsVerdict r.judge_verdict × (r.findings_json ≡ v) × (r.analyst_surfaced_raw ≡ b)
    unfolding review run_judge
    review-IsVerdict paranoid raw v b s s' r h =
        let ((aud, s₁), e, h₁) = bind-eq-ok (audit lib backend cfg nonce paranoid raw s) _ h in
        let ((j, s₂), e₂, h₂) = bind-eq-ok (run_judge lib backend cfg nonce raw aud.raw s₁) _ h₁ in
        let ((out, s₃), e₃, h₃) = bind-eq-ok (ask lib backend cfg nonce _ _ s₁) _ e₂ in
        let k = ok-injective h₂ in
        (
          subst IsVerdict (ap (λ x. x.0.verdict) (ok-injective h₃) ∙ ap (λ x. x.0.judge_verdict) k)
              (verdict_of-IsVerdict _),
          sym (ap (λ x. x.0.findings_json) k),
          sym (ap (λ x. x.0.analyst_surfaced_raw) k),
        )

    -- What a run that succeeds reports.
    pub record Reports (lenient : Bool) (r : PipelineResult lib) : Type 0 where
      pub verdict :
          ((lenient ≡ true) × (r.judge_verdict ≡ codes "skipped"))
          ⊎ ((lenient ≡ false) × IsVerdict r.judge_verdict)
      pub findings :
          (has_findings_array lib r.findings_json ≡ true) ⊎ (r.analyst_surfaced_raw ≡ true)

    -- A run that succeeds has one of the three verdicts, or `skipped` exactly in lenient mode,
    -- whatever the model says; and its findings have their array, or the report is marked as raw.
    pub run-Reports :
        (prompt : Text) (pcfg : PipelineConfig) (s s' : S) (r : PipelineResult lib)
        → run lib backend cfg nonce prompt pcfg s ≡ ok (r, s')
        → Reports pcfg.lenient r
    unfolding run skipped
    run-Reports prompt pcfg s s' r h =
        let ((a, s₁), e, h₁) = bind-eq-ok (analyse lib backend cfg nonce prompt s) _ h in
        let shaped = (analyse-IsShaped prompt s s₁ a.0 a.1 a.2 e).shape in
        elim (Bool-cases pcfg.lenient) [
          | inl l ↦
              let k = ap (λ x. x.0) (ok-injective (rw l at h₁)) in
              record {
                verdict = inl (l, sym (ap (λ x. x.judge_verdict) k));
                findings =
                    subst
                      (λ x.
                        (has_findings_array lib x.findings_json ≡ true)
                        ⊎ (x.analyst_surfaced_raw ≡ true))
                      k shaped;
              }
          | inr l ↦
              let (v, f, b) = review-IsVerdict pcfg.paranoid a.0 a.1 a.2 s₁ s' r (rw l at h₁) in
              record { verdict = inr (l, v); findings = rw (f, b) shaped }
        ]
