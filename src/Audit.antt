-- ===== src/Audit.antt =====
-- crates/seck-audit: the hash-chained, signed audit log. A record of the log, and what the crate
-- uses of serde_json, hex and seck-crypto as an interface.
pub mod Chain
pub mod Verify
pub mod Sound
pub mod Tamper
mod Runs
use seck.Base.{◌≡◌, Bool, true, Option, some, List, Bytes, Text}
use seck.Base.Strings.{HasNoBreak}

abbrev pub Fields : Type 0
Fields = List (Text × Text)

-- `Record` of src/record.rs
pub record Record : Type 0 where
  pub timestamp : Text
  pub event : Text
  pub fields : Fields
  pub prev_sha3_256 : Text
  pub this_sha3_256 : Text
  pub ml_dsa_signature_hex : Text

-- The value that `json!` builds to be hashed and signed.
pub record Body : Type 0 where
  pub timestamp : Text
  pub event : Text
  pub fields : Fields
  pub prev_sha3_256 : Text

-- `serde_json::to_vec` of a body, `to_string` and `from_str` of a record, the SHA3-256 hash,
-- `hex::encode` and `hex::decode`, and the signature scheme.
pub record Primitives : Type 0 where
  pub body_bytes : Body → Bytes
  pub to_json : Record → Text
  pub from_json : Text → Option Record
  pub sha3_256 : Bytes → Bytes
  pub hex_encode : Bytes → Text
  pub hex_decode : Text → Option Bytes
  pub ml_dsa_sign : Bytes → Bytes → Bytes
  pub ml_dsa_verify : Bytes → Bytes → Bytes → Bool

-- What the crates document: JSON is read back as it was written, with its control characters
-- escaped, hex digits likewise, and a signature by `sk` is accepted under `pk`.
pub record IsDocumented (p : Primitives) (pk sk : Bytes) : Type 0 where
  pub from_json-to_json : (r : Record) → p.from_json (p.to_json r) ≡ some r
  pub to_json-HasNoBreak : (r : Record) → HasNoBreak (p.to_json r)
  pub hex_decode-hex_encode : (b : Bytes) → p.hex_decode (p.hex_encode b) ≡ some b
  pub ml_dsa_verify-ml_dsa_sign : (m : Bytes) → p.ml_dsa_verify pk m (p.ml_dsa_sign sk m) ≡ true
