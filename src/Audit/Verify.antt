-- ===== src/Audit/Verify.antt =====
-- `verify_chain` of crates/seck-audit/src/verify.rs, over the content of the file.
use seck.Base.{ℕ, suc, Option, none, some, List, [], ◌∷◌, equal, Bytes, Text}
use seck.Base.Outcome.{Result, ok, err, ◌>>=◌, ◌>>◌, guard}
use seck.Base.Strings.{lines}
use seck.Audit.{Primitives}
use seck.Audit.Chain.{genesis}

pub data VerifyError : Type 0 where
  chain_break : ℕ → VerifyError
  hash_mismatch : ℕ → VerifyError
  bad_sig : ℕ → VerifyError
  parse : VerifyError

-- `ok_or`
abbrev pub ok_or {ℓ} : {A : Type ℓ} → Option A → VerifyError → Result VerifyError A
ok_or none e = err e
ok_or (some a) e = ok a

module _ (p : Primitives) (pk : Bytes) where
  -- The body of the loop, which ends with the next `prev`.
  unfoldable pub verify_record : Text → ℕ → Text → Result VerifyError Text
  verify_record prev i line = do
    rec ← ok_or (p.from_json line) parse
    guard (equal rec.prev_sha3_256 prev) (chain_break i)
    let body_bytes = p.body_bytes (record {
      timestamp = rec.timestamp;
      event = rec.event;
      fields = rec.fields;
      prev_sha3_256 = prev;
    })
    guard (equal (p.hex_encode (p.sha3_256 body_bytes)) rec.this_sha3_256) (hash_mismatch i)
    sig ← ok_or (p.hex_decode rec.ml_dsa_signature_hex) (bad_sig i)
    guard (p.ml_dsa_verify pk body_bytes sig) (bad_sig i)
    ok rec.this_sha3_256

  -- The tip is `prev` at the end of every round.
  unfoldable pub verify_lines : Text → ℕ → List Text → Result VerifyError Text
  verify_lines prev i [] = ok prev
  verify_lines prev i (line ∷ ls) = do
    next ← verify_record prev i line
    verify_lines next (suc i) ls

  unfoldable pub verify_chain : Text → Result VerifyError Text
  unfolding verify_lines verify_record
  verify_chain content = verify_lines genesis 0 (lines content)
