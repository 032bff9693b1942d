-- ===== src/Cli/AuditLog.antt =====
-- The command `audit` of crates/seck-cli/src/audit.rs, with `derive_device_key` and the clamps of
-- crates/seck-crypto. The state is the files in the directory of the keys. The logs, the clock, the
-- random numbers, the terminal, the disk and the third-party primitives are parameters.
pub mod Laws
mod Runs
use Prim.Native.Nat.{max}
use seck.Base.{
  ℕ, ◌*◌, Bool, true, false, not, Option, none, some, List, [], ◌∷◌, ◌++◌, if◌then◌else◌, ◌==◌,
  length, Bytes, Text,
}
use seck.Base.Outcome.{Result, ok, err, ◌>>=◌}
use seck.Base.Strings.{lines}
use seck.Audit.{Primitives}
use seck.Audit.Chain.{last, tip_of_line}
use seck.Audit.Verify.{VerifyError, verify_chain}

-- `salt.bin`, `device.pk` and `device.sk`
pub record KeysDir : Type 0 where
  pub salt : Option Bytes
  pub pk : Option Bytes
  pub sk : Option Bytes

pub data AuditOp : Type 0 where
  init : AuditOp
  verify : Option Text → AuditOp
  tip : AuditOp

pub data AuditError : Type 0 where
  already_initialized csprng_fill write_salt read_passphrase empty_passphrase : AuditError
  write_pk write_sk permissions read_public_key : AuditError
  no_audit_log : Text → AuditError
  verify_failed : VerifyError → AuditError

pub data Printed : Type 0 where
  public_key_hash : Text → Printed
  chain_tip : Text → Printed
  no_log_for_today : Printed

-- What the disk lets through.
pub record Allowed : Type 0 where
  pub salt : Bool
  pub pk : Bool
  pub sk : Bool
  pub modes : Bool

pub record Machine : Type 0 where
  pub primitives : Primitives
  pub argon2id : Bytes → Bytes → ℕ → ℕ → ℕ → Bytes
  pub keypair : Bytes × Bytes
  pub random_salt : Option Bytes
  pub read_password : Option Bytes
  pub writes : Allowed
  pub today : Text
  pub logs : Text → Option Text

abbrev pub default_m_kib : ℕ
default_m_kib = 524288

abbrev pub default_t : ℕ
default_t = 4

abbrev pub default_p : ℕ
default_p = 4

abbrev pub required {ℓ} : {A : Type ℓ} → AuditError → Option A → Result AuditError A
required e none = err e
required e (some a) = ok a

abbrev pub verified : Result VerifyError Text → Result AuditError Printed
verified (ok t) = ok (chain_tip t)
verified (err e) = err (verify_failed e)

module _ (m : Machine) where
  unfoldable pub argon2id_safe : Bytes → Bytes → ℕ → ℕ → ℕ → Bytes
  argon2id_safe pass salt m_kib t p =
      m.argon2id pass salt (max m_kib default_m_kib) (max t default_t) (max p default_p)

  -- The seed is not used: the pair is a random one.
  unfoldable pub derive_device_key : Bytes → Bytes → Bytes × Bytes
  unfolding argon2id_safe
  derive_device_key passphrase salt = let seed = argon2id_safe passphrase salt 0 0 0 in m.keypair

  unfoldable pub write_sk_file : Bytes → Bytes → KeysDir → Result AuditError Printed × KeysDir
  write_sk_file public secret k =
      if not m.writes.sk
      then (err write_sk, k)
      else let k' = record k { sk = some secret } in
        if not m.writes.modes
        then (err permissions, k')
        else (ok (public_key_hash (m.primitives.hex_encode (m.primitives.sha3_256 public))), k')

  -- From the passphrase on.
  unfoldable pub write_keys : Bytes → Bytes → KeysDir → Result AuditError Printed × KeysDir
  unfolding derive_device_key write_sk_file
  write_keys pass salt k =
      let (public, secret) = derive_device_key pass salt in
      if not m.writes.pk
      then (err write_pk, k)
      else write_sk_file public secret (record k { pk = some public })

  unfoldable pub ask_passphrase : Bytes → KeysDir → Result AuditError Printed × KeysDir
  unfolding write_keys
  ask_passphrase salt k = elim m.read_password [
    | none ↦ (err read_passphrase, k)
    | some pass ↦ if length pass == 0 then (err empty_passphrase, k) else write_keys pass salt k
  ]

  unfoldable pub init_keys : KeysDir → Result AuditError Printed × KeysDir
  unfolding ask_passphrase
  init_keys k = elim k.salt [
    | some old ↦ (err already_initialized, k)
    | none ↦ elim m.random_salt [
      | none ↦ (err csprng_fill, k)
      | some salt ↦
          if not m.writes.salt
          then (err write_salt, k)
          else let k' = record k { salt = some salt } in
            if not m.writes.modes then (err permissions, k') else ask_passphrase salt k'
    ]
  ]

  unfoldable pub verify_log : Text → KeysDir → Result AuditError Printed
  verify_log day k = do
    pk ← required read_public_key k.pk
    content ← required (no_audit_log day) (m.logs day)
    verified (verify_chain m.primitives pk content)

  unfoldable pub print_tip : Result AuditError Printed
  print_tip = elim (m.logs m.today) [
    | none ↦ ok no_log_for_today
    | some content ↦ ok (chain_tip (tip_of_line m.primitives (last (lines content))))
  ]

  unfoldable pub run : AuditOp → KeysDir → Result AuditError Printed × KeysDir
  unfolding init_keys verify_log print_tip
  run init k = init_keys k
  run (verify none) k = (verify_log m.today k, k)
  run (verify (some day)) k = (verify_log day k, k)
  run tip k = (print_tip, k)
