-- ===== src/Cli/AuditLog/Laws.antt =====
-- What the command `audit` leaves behind, and how its answers agree.
use seck.Base.{◌≡◌, refl, ap, true, Option, none, some, [], Bytes, Text}
use seck.Base.Outcome.{Result, ok, err, bind-eq-ok}
use seck.Audit.Verify.{VerifyError}
use seck.Audit.Sound.{open_writer-verify_chain}
use seck.Audit.Chain.{open_writer}
use seck.Cli.AuditLog.{
  KeysDir, init, verify, tip, AuditError, already_initialized, empty_passphrase, read_public_key,
  no_audit_log, required, verified, Printed, chain_tip, Machine, init_keys, ask_passphrase,
  verify_log, print_tip, run,
}

abbrev pub no_keys : KeysDir
no_keys = record { salt = none; pk = none; sk = none }

-- An empty passphrase is refused only after the salt is written: from then on the setup is refused as
-- done already, on any machine with these files, and there is no public key to verify with.
pub init-empty_passphrase :
    (m m' : Machine) (salt : Bytes) (day : Option Text)
    → m.random_salt ≡ some salt
    → m.read_password ≡ some []
    → m.writes.salt ≡ true
    → m.writes.modes ≡ true
    → (k : KeysDir) × (run m init no_keys ≡ (err empty_passphrase, k))
      × (run m' init k ≡ (err already_initialized, k))
      × (run m' (verify day) k ≡ (err read_public_key, k))
unfolding run
init-empty_passphrase m m' salt none r p w o = (
  record no_keys { salt = some salt },
  rw (r, init_keys) (rw (w, o) (rw (p, ask_passphrase) refl)),
  refl,
  refl,
)
init-empty_passphrase m m' salt (some day) r p w o = (
  record no_keys { salt = some salt },
  rw (r, init_keys) (rw (w, o) (rw (p, ask_passphrase) refl)),
  refl,
  refl,
)

verified-eq-ok : (r : Result VerifyError Text) (t : Text) → verified r ≡ ok (chain_tip t) → r ≡ ok t
verified-eq-ok (ok s) t h = cc
verified-eq-ok (err e) t h = cc

required-eq-ok {ℓ} :
    {A : Type ℓ} (e : AuditError) (o : Option A) {a : A} → required e o ≡ ok a → o ≡ some a
required-eq-ok e none h = cc
required-eq-ok e (some b) h = cc

-- If the verification of today's log succeeds, `tip` prints the tip that it printed.
pub tip-verify :
    (m : Machine) (k : KeysDir) (t : Text)
    → run m (verify none) k ≡ (ok (chain_tip t), k)
    → run m tip k ≡ (ok (chain_tip t), k)
unfolding run verify_log print_tip open_writer
tip-verify m k t h =
    let h₀ : verify_log m m.today k ≡ ok (chain_tip t) =
      ap (λ (x : Result AuditError Printed × KeysDir). x.0) h in
    let (pk, e₁, h₁) = bind-eq-ok (required read_public_key k.pk) _ h₀ in
    let (content, e₂, h₂) = bind-eq-ok (required (no_audit_log m.today) (m.logs m.today)) _ h₁ in
    let found = required-eq-ok (no_audit_log m.today) (m.logs m.today) e₂ in
    let same = open_writer-verify_chain m.primitives pk content [] t (verified-eq-ok _ t h₂) in
    rw (found, print_tip) (ap (λ (x : Text). (ok (chain_tip x), k)) same)
