-- ===== src/Audit/Chain.antt =====
-- `Writer` of crates/seck-audit/src/chain.rs. The directory, the day of the file's name and the
-- clock are the caller's; of the I/O errors, a write that stops early is modelled.
use seck.Base.{ℕ, Option, none, some, List, [], ◌∷◌, ◌++◌, replicate, take, Bytes, Text}
use seck.Base.Outcome.{Result, ok, err}
use seck.Base.Strings.{lines}
use seck.Audit.{Fields, Record, Body, Primitives}

-- The writer, with the file that it writes to.
pub record Writer : Type 0 where
  pub content : Text
  pub tip : Text
  pub sk : Bytes

-- `"0".repeat(64)`
abbrev pub genesis : Text
genesis = replicate 64 b'0'

unfoldable pub last {ℓ} : {A : Type ℓ} → List A → Option A
last [] = none
last (x ∷ []) = some x
last (x ∷ y ∷ xs) = last (y ∷ xs)

-- How `write_all` ends: with all of the line in the file, or with the first `n` characters.
pub data Written : Type 0 where
  complete : Written
  torn : ℕ → Written

pub data IoError : Type 0 where
  write_failed : IoError

module _ (p : Primitives) where
  unfoldable pub tip_of_line : Option Text → Text
  tip_of_line none = genesis
  tip_of_line (some l) = elim (p.from_json l) [ none ↦ genesis | some r ↦ r.this_sha3_256 ]

  -- `none` is a file that does not exist yet.
  unfoldable pub open_writer : Option Text → Bytes → Writer
  unfolding tip_of_line last
  open_writer none sk = record { content = []; tip = genesis; sk = sk }
  open_writer (some content) sk = record {
    content = content;
    tip = tip_of_line (last (lines content));
    sk = sk;
  }

  abbrev pub body_of : Record → Body
  body_of r = record {
    timestamp = r.timestamp;
    event = r.event;
    fields = r.fields;
    prev_sha3_256 = r.prev_sha3_256;
  }

  -- The record that `append` writes.
  unfoldable pub next_record : Writer → Text → Text → Fields → Record
  next_record w timestamp event fields =
      let body_bytes =
        p.body_bytes (record {
          timestamp = timestamp;
          event = event;
          fields = fields;
          prev_sha3_256 = w.tip;
        }) in
      record {
        timestamp = timestamp;
        event = event;
        fields = fields;
        prev_sha3_256 = w.tip;
        this_sha3_256 = p.hex_encode (p.sha3_256 body_bytes);
        ml_dsa_signature_hex = p.hex_encode (p.ml_dsa_sign w.sk body_bytes);
      }

  -- A failed write leaves the tip as it was.
  unfoldable pub append :
      Written → Writer → Text → Text → Fields → Writer × Result IoError (Unit {0})
  unfolding next_record
  append written w timestamp event fields =
      let r = next_record w timestamp event fields in
      let line = p.to_json r ++ b'\n' ∷ [] in
      elim written [
        | complete ↦ (record w { content = w.content ++ line; tip = r.this_sha3_256 }, ok tt)
        | torn n ↦ (record w { content = w.content ++ take n line }, err write_failed)
      ]

  -- Entries appended one after the other.
  unfoldable pub append_all : Writer → List (Text × Text × Fields) → Writer
  append_all w [] = w
  append_all w ((time, event, fields) ∷ es) = append_all (append complete w time event fields).0 es
