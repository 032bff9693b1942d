-- ===== src/Report.antt =====
-- crates/seck-report: the report schema (src/schema.rs). Texts are code points.
pub mod Sanitize
pub mod Renderer
pub mod Value
pub mod Schema
use seck.Base.{ℕ, Bool, List, Text}

-- `temperature` is an f32 in the source; here it is the text that `Display` makes of it.
pub record Invocation : Type 0 where
  pub nonce_sha3_256 : Text
  pub started_at : Text
  pub finished_at : Text
  pub sandbox_mode : Text
  pub backend : Text
  pub model : Text
  pub model_sha3_256 : Text
  pub temperature : Text
  pub seed : ℕ
  pub deterministic : Bool

pub record Input : Type 0 where
  pub path : Text
  pub sha3_256 : Text
  pub size : ℕ
  pub kind : Text

pub record Finding : Type 0 where
  pub id : Text
  pub summary : Text
  pub files : List Text
  pub category : Text
  pub confidence : Text
  pub evidence_quote : Text

pub record Attestation : Type 0 where
  pub platform : Text
  pub sandbox_mode : Text
  pub profile_sha3_256 : Text
  pub binary_sha3_256 : Text

pub record Report : Type 0 where
  pub version : Text
  pub invocation : Invocation
  pub inputs : List Input
  pub findings : List Finding
  pub sandbox_attestation : Attestation
