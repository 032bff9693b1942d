-- ===== src/Release.antt =====
-- crates/seck-release-sign/src/main.rs and crates/seck-verify-release/src/main.rs, over the files. The
-- parsing of arguments, which exits by itself when it fails, comes before.
use seck.Base.{ℕ, Bool, true, false, Option, none, some, if◌then◌else◌, equal, Bytes}
use seck.Base.Outcome.{Result, ok, err, ◌>>=◌}
use seck.Crypto.{Schemes, slh_dsa_sign, slh_dsa_verify, sign_with, verify_with}
pub mod Laws
mod Runs

abbrev pub Files : Type 0
Files = Bytes → Option Bytes

-- Whether a write succeeds, and what one that fails leaves.
pub record Disk : Type 0 where
  pub writes : Bytes → Bytes → Bool
  pub torn : Bytes → Bytes → Option Bytes

pub record SignArgs : Type 0 where
  pub key : Bytes
  pub input : Bytes
  pub output : Bytes

pub record VerifyArgs : Type 0 where
  pub pubkey : Bytes
  pub binary : Bytes
  pub sig : Bytes

pub data ReleaseError : Type 0 where
  read_file write_sig panicked : ReleaseError

abbrev pub or_fails {ℓ} : {A : Type ℓ} → ReleaseError → Option A → Result ReleaseError A
or_fails e none = err e
or_fails e (some a) = ok a

unfoldable pub put : Bytes → Option Bytes → Files → Files
put path content fs p = if equal path p then content else fs p

abbrev pub exit_of : Result ReleaseError Bool → ℕ
exit_of (ok true) = 0
exit_of (ok false) = 1
exit_of (err e) = 2

module _ (d : Disk) where
  unfoldable pub write : Bytes → Bytes → Files → Result ReleaseError (Unit {0}) × Files
  unfolding put
  write path content fs =
      if d.writes path content
      then (ok tt, put path (some content) fs)
      else (err write_sig, put path (d.torn path content) fs)

  abbrev pub write_made :
      Bytes → Files → Result ReleaseError Bytes → Result ReleaseError (Unit {0}) × Files
  write_made output fs (ok sig) = write output sig fs
  write_made output fs (err e) = (err e, fs)

module _ (p : Schemes) where
  -- The signature of the input.
  unfoldable pub make_sig : SignArgs → Files → Result ReleaseError Bytes
  unfolding sign_with
  make_sig a fs = do
    sk ← or_fails read_file (fs a.key)
    msg ← or_fails read_file (fs a.input)
    or_fails panicked (slh_dsa_sign p sk msg)

  -- `real_main` of seck-verify-release, with the test of the signature as its answer
  unfoldable pub check_sig : VerifyArgs → Files → Result ReleaseError Bool
  unfolding verify_with
  check_sig a fs = do
    pk ← or_fails read_file (fs a.pubkey)
    msg ← or_fails read_file (fs a.binary)
    sig ← or_fails read_file (fs a.sig)
    ok (slh_dsa_verify p pk msg sig)

  -- The exit code.
  unfoldable pub verify_release : VerifyArgs → Files → ℕ
  unfolding check_sig
  verify_release a fs = exit_of (check_sig a fs)

module _ (p : Schemes) (d : Disk) where
  -- `main` of seck-release-sign
  unfoldable pub release_sign : SignArgs → Files → Result ReleaseError (Unit {0}) × Files
  unfolding make_sig write
  release_sign a fs = write_made d a.output fs (make_sig p a fs)
