-- ===== src/Pipeline/Paranoid.antt =====
-- The audit by two auditors in paranoid mode.
use seck.Base.{◌≡◌, true, ◌++◌, Bytes, Text}
use seck.Base.Strings.{codes}
use seck.Pipeline.{InferenceConfig, LlmBackend, Library}
use seck.Pipeline.Passes.{is_passed}
use seck.Pipeline.Run.{PipelineResult}

module _ (lib : Library) {S : Type 0} (backend : LlmBackend S) (cfg : InferenceConfig)
    (nonce : Bytes) where
  -- The report shows two answers that pass.
  pub record BothPassed (r : PipelineResult lib) : Type 0 where
    pub raw1 : Text
    pub raw2 : Text
    pub shown : r.auditor_raw ≡ codes "--- pass1 ---\n" ++ raw1 ++ codes "\n--- pass2 ---\n" ++ raw2
    pub passed1 : is_passed lib raw1 ≡ true
    pub passed2 : is_passed lib raw2 ≡ true
