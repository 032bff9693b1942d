-- ===== src/Audit/Runs.antt =====
-- Simple primitives that behave as documented, and the theorems of `Audit` with them.
use seck.Base.{
  ℕ, ◌+◌, ◌%◌, ◌≡◌, refl, sym, ap, ◌∙◌, Option, none, some, List, [], ◌∷◌, ◌++◌, ◌⊎◌, map, equal,
  equal_refl, Bytes, Text,
}
use seck.Base.Outcome.{ok}
use seck.Base.Strings.{codes, lines}
use seck.Base.Packing.{enc, enc_all, split, split-enc_all, enc_all-HasNoBreak, to_head}
use seck.Audit.{Fields, Record, Body, Primitives, IsDocumented}
use seck.Audit.Chain.{Writer, genesis, open_writer, next_record, append, append_all, complete, torn}
use seck.Audit.Verify.{verify_chain, verify_lines, verify_record}
use seck.Audit.Sound.{verify_chain-append_all}
use seck.Audit.Tamper.{says, Collide, same_tip_same_log}

flat : Fields → List Text
flat [] = []
flat ((k, v) ∷ fs) = k ∷ v ∷ flat fs

pairs : List Text → Fields
pairs [] = []
pairs (k ∷ []) = []
pairs (k ∷ v ∷ ts) = (k, v) ∷ pairs ts

pairs-flat : (fs : Fields) → pairs (flat fs) ≡ fs
unfolding pairs flat
pairs-flat [] = refl
pairs-flat ((k, v) ∷ fs) = ap (◌∷◌ (k, v)) (pairs-flat fs)

to_record : List Text → Option Record
to_record (time ∷ event ∷ prev ∷ this ∷ sig ∷ ts) = some (record {
  timestamp = time;
  event = event;
  fields = pairs ts;
  prev_sha3_256 = prev;
  this_sha3_256 = this;
  ml_dsa_signature_hex = sig;
})
to_record _ = none

of_body : Body → List Text
of_body b = b.timestamp ∷ b.event ∷ b.prev_sha3_256 ∷ flat b.fields

of_record : Record → List Text
of_record r =
    r.timestamp
    ∷ r.event
    ∷ r.prev_sha3_256
    ∷ r.this_sha3_256
    ∷ r.ml_dsa_signature_hex
    ∷ flat r.fields

to_record-of_record : (r : Record) → to_record (of_record r) ≡ some r
unfolding to_record of_record
to_record-of_record r = rw (pairs-flat r.fields) refl

to_body : List Text → Option Body
to_body (time ∷ event ∷ prev ∷ ts) =
    some (record { timestamp = time; event = event; fields = pairs ts; prev_sha3_256 = prev })
to_body _ = none

to_body-of_body : (b : Body) → to_body (of_body b) ≡ some b
unfolding to_body of_body
to_body-of_body b = rw (pairs-flat b.fields) refl

-- The signature is the key before the message, and the digest the message itself.
abbrev simple : Primitives
simple = record {
  body_bytes = λ b. enc_all (of_body b);
  to_json = λ r. enc_all (of_record r);
  from_json = λ s. to_record (split s);
  sha3_256 = λ m. m;
  hex_encode = λ b. b;
  hex_decode = some;
  ml_dsa_sign = λ sk m. sk ++ m;
  ml_dsa_verify = λ pk m sig. equal sig (pk ++ m);
}

abbrev key : Bytes
key = 7 ∷ []

simple-IsDocumented : IsDocumented simple key key
simple-IsDocumented = record {
  from_json-to_json = λ r. ap to_record (split-enc_all (of_record r)) ∙ to_record-of_record r;
  to_json-HasNoBreak = λ r. enc_all-HasNoBreak (of_record r);
  hex_decode-hex_encode = λ b. refl;
  ml_dsa_verify-ml_dsa_sign = λ m. equal_refl (key ++ m);
}

body_bytes_faithful : (a b : Body) → simple.body_bytes a ≡ simple.body_bytes b → a ≡ b
body_bytes_faithful a b h =
    some_injective (sym (decoded a) ∙ ap (λ s. to_body (split s)) h ∙ decoded b)
  where
    some_injective : {x y : Body} → some x ≡ some y → x ≡ y
    some_injective e = cc

    decoded : (b : Body) → to_body (split (enc_all (of_body b))) ≡ some b
    decoded b = ap to_body (split-enc_all (of_body b)) ∙ to_body-of_body b

abbrev entries : List (Text × Text × Fields)
entries =
    (codes "t0", codes "start", []) ∷ (codes "t1", codes "scan", (codes "n", codes "3") ∷ []) ∷ []

abbrev log : Writer
log = append_all simple (open_writer simple none key) entries

verify_chain-append_all_example : verify_chain simple key log.content ≡ ok log.tip
verify_chain-append_all_example = verify_chain-append_all simple key key simple-IsDocumented entries

abbrev first : Record
first = next_record simple (open_writer simple none key) (codes "t0") (codes "start") []

abbrev second : Record
second =
    next_record simple
      (append simple complete (open_writer simple none key) (codes "t0") (codes "start") []).0
      (codes "t1") (codes "scan") []

abbrev log_lines : List Text
log_lines = simple.to_json first ∷ simple.to_json second ∷ []

log_lines_verify : verify_lines simple key genesis 0 log_lines ≡ ok second.this_sha3_256
unfolding verify_lines verify_record to_record split enc_all of_record enc next_record to_head
    open_writer of_body flat equal pairs append
log_lines_verify = refl

-- A digest of one byte, the sum of a message: anagrams clash.
sum : Bytes → ℕ
sum [] = 0
sum (c ∷ m) = c + sum m

abbrev summing : Primitives
summing = record simple { sha3_256 = λ m. (sum m % 256) ∷ [] }

abbrev summed : Text → Record
summed event = next_record summing (open_writer summing none key) (codes "t0") event []

abbrev summed_lines : Text → List Text
summed_lines event = summing.to_json (summed event) ∷ []

tars_verify :
    verify_lines summing key genesis 0 (summed_lines (codes "tars"))
    ≡ ok (summed (codes "star")).this_sha3_256
unfolding verify_lines verify_record to_record split enc_all of_record enc next_record to_head
    open_writer of_body flat equal pairs append sum
tars_verify = refl

star_verify :
    verify_lines summing key genesis 0 (summed_lines (codes "star"))
    ≡ ok (summed (codes "star")).this_sha3_256
unfolding verify_lines verify_record to_record split enc_all of_record enc next_record to_head
    open_writer of_body flat equal pairs append sum
star_verify = refl

same_tip_same_log_example :
    ((genesis ≡ genesis)
      × (map (says summing) (summed_lines (codes "tars"))
          ≡ map (says summing) (summed_lines (codes "star"))))
    ⊎ Collide summing (summed_lines (codes "tars")) (summed_lines (codes "star"))
same_tip_same_log_example =
    same_tip_same_log summing key key body_bytes_faithful (summed_lines (codes "tars"))
      (summed_lines (codes "star")) genesis genesis 0 0 (summed (codes "star")).this_sha3_256 refl
      tars_verify star_verify

-- The second line torn after three characters, and a third entry by a writer that opens the log.
abbrev torn_log : Text
torn_log =
    let w = append simple complete (open_writer simple none key) (codes "t0") (codes "start") [] in
    (append simple (torn 3) w.0 (codes "t1") (codes "scan") []).0.content

reopened : (open_writer simple (some torn_log) key).tip ≡ genesis
unfolding open_writer lines append enc_all of_record enc of_body flat to_record split to_head
reopened = refl
