-- ===== src/Pipeline.antt =====
-- crates/seck-pipeline: analyst, auditor and judge, three passes over one language model; with the
-- backend's interface from crates/seck-plugin, and what the passes use of serde_json and `str`.
pub mod Seed
pub mod Passes
pub mod Run
pub mod Verdict
pub mod Paranoid
pub mod Unaudited
pub mod Runs
use seck.Base.{ℕ, Bool, Option, List, Bytes, Text}
use seck.Base.Outcome.{Result}

-- The temperature is the bits of an `f32`.
pub record InferenceConfig : Type 0 where
  pub model_path : Bytes
  pub temperature : ℕ
  pub seed : ℕ
  pub max_tokens : ℕ
  pub context_window : ℕ

pub data BackendError : Type 0 where
  model_load : Text → BackendError
  generation : Text → BackendError
  io : BackendError

-- `dyn LlmBackend`, with the state `S` behind `&mut self`.
pub record LlmBackend (S : Type 0) : Type 0 where
  pub load : InferenceConfig → S → Result BackendError S
  pub generate : Text → S → Result BackendError (Text × S)

-- `serde_json::Value` with `from_str`, `get`, `as_array`, `as_str` and `json!({"raw": …})`; and the
-- Unicode conversions of `str`.
pub record Library : Type 1 where
  pub Value : Type 0
  pub from_str : Text → Option Value
  pub get : Text → Value → Option Value
  pub as_array : Value → Option (List Value)
  pub as_str : Value → Option Text
  pub raw_object : Text → Value
  pub to_uppercase : Text → Text
  pub to_lowercase : Text → Text
  pub sha3_256 : Bytes → Bytes

pub record PipelineConfig : Type 0 where
  pub paranoid : Bool
  pub lenient : Bool
