-- ===== src/Cli/AuditLog/Runs.antt =====
-- Runs of the command `audit`.
use seck.Base.{◌≡◌, refl, true, none, some, [], equal}
use seck.Base.Outcome.{ok}
use seck.Base.Strings.{codes, lines}
use seck.Audit.{Record, Primitives}
use seck.Audit.Chain.{genesis}
use seck.Audit.Verify.{verify_chain}
use seck.Cli.AuditLog.{KeysDir, init, verify, chain_tip, Machine, run}
use seck.Cli.AuditLog.Laws.{no_keys}

-- Every line is one record, whose digest is `d`.
abbrev only : Record
only = record {
  timestamp = codes "t";
  event = codes "start";
  fields = [];
  prev_sha3_256 = genesis;
  this_sha3_256 = codes "d";
  ml_dsa_signature_hex = codes "s";
}

abbrev constant : Primitives
constant = record {
  body_bytes = λ b. [];
  to_json = λ r. codes "{}";
  from_json = λ s. some only;
  sha3_256 = λ m. codes "d";
  hex_encode = λ b. b;
  hex_decode = some;
  ml_dsa_sign = λ sk m. codes "s";
  ml_dsa_verify = λ pk m sig. true;
}

-- Return is pressed at the prompt.
abbrev hasty : Machine
hasty = record {
  primitives = constant;
  argon2id = λ pass salt m t p. [];
  keypair = (codes "pk", codes "sk");
  random_salt = some (codes "salt");
  read_password = some [];
  writes = record { salt = true; pk = true; sk = true; modes = true };
  today = codes "2026-01-01";
  logs = λ day. some (codes "{}\n");
}

abbrev ready : KeysDir
ready = record { salt = some (codes "salt"); pk = some (codes "pk"); sk = some (codes "sk") }

set_up : (run (record hasty { read_password = some (codes "pw") }) init no_keys).1 ≡ ready
unfolding run
set_up = refl

verified_today : run hasty (verify none) ready ≡ (ok (chain_tip (codes "d")), ready)
unfolding run verify_chain lines equal
verified_today = refl
