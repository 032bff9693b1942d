-- ===== src/Release/Runs.antt =====
-- Runs of the release tools, and their theorems at concrete inputs.
use seck.Base.{
  ◌≤◌, ◌≡◌, ◌↔◌, refl, arith, none, some, ◌++◌, if◌then◌else◌, true, false, equal, equal_iff, Bytes,
}
use seck.Base.Outcome.{ok}
use seck.Base.Strings.{codes}
use seck.Crypto.{Scheme, Schemes}
use seck.Release.{Files, Disk, SignArgs, VerifyArgs, release_sign, verify_release}
use seck.Release.Laws.{Signs, Checked, verify_release_iff, verify_release-release_sign}

-- A signature is the message with the key behind it, and both keys are the same.
abbrev joining : Scheme
joining = record {
  PublicKey = Bytes;
  SecretKey = Bytes;
  DetachedSignature = Bytes;
  public_of = λ b. some b;
  public_bytes = λ b. b;
  secret_of = λ b. some b;
  secret_bytes = λ b. b;
  signature_of = λ b. some b;
  signature_bytes = λ b. b;
  detached_sign = λ m k. m ++ k;
  verify_detached_signature = λ t m k. equal t (m ++ k);
}

abbrev schemes : Schemes
schemes = record {
  slh = joining;
  mldsa = joining;
  slh_drawn = (codes "key", codes "key");
  mldsa_drawn = (codes "k", codes "k");
}

joining-Signs : Signs joining (codes "key") (codes "key")
joining-Signs = record {
  public_back = refl;
  secret_back = refl;
  signature_back = λ t. refl;
  verifies = λ m. (equal_iff (m ++ codes "key") (m ++ codes "key")).1 refl;
}

abbrev disk : Disk
disk = record { writes = λ p c. true; torn = λ p c. none }

abbrev unsigned : Files
unsigned path = if equal path (codes "seck") then some (codes "elf") else some (codes "key")

abbrev sign_args : SignArgs
sign_args = record { key = codes "sk.bin"; input = codes "seck"; output = codes "seck.slhdsa" }

abbrev verify_args : VerifyArgs
verify_args = record { pubkey = codes "pk.bin"; binary = codes "seck"; sig = codes "seck.slhdsa" }

-- The unsigned artifact: the file of the signature holds something else.
rejected : verify_release schemes verify_args unsigned ≡ 1
unfolding verify_release equal
rejected = refl

verify_release_iff_example :
    ((verify_release schemes verify_args unsigned ≡ 0) ↔ Checked schemes verify_args unsigned true)
    × ((verify_release schemes verify_args unsigned ≡ 1)
        ↔ Checked schemes verify_args unsigned false)
    × (verify_release schemes verify_args unsigned ≤ 2)
verify_release_iff_example = verify_release_iff schemes verify_args unsigned

verify_release-release_sign_example :
    ((release_sign schemes disk sign_args unsigned).0 ≡ ok tt)
    × (verify_release schemes verify_args (release_sign schemes disk sign_args unsigned).1 ≡ 0)
unfolding equal
verify_release-release_sign_example =
    verify_release-release_sign schemes joining-Signs disk sign_args (codes "pk.bin") (codes "elf")
      unsigned refl refl refl (λ h. ground (arith, h)) (λ h. ground (arith, h)) refl
