-- ===== src/Release/Laws.antt =====
-- What a release that was signed is verified as, and what each exit code says.
use seck.Base.{
  ◌≤◌, ◌≡◌, ◌≢◌, ◌↔◌, refl, ap, ◌∙◌, arith, Bool, true, false, Option, none, some, equal_iff,
  equal_refl, Bytes,
}
use seck.Base.Outcome.{Result, ok, err, bind-eq-ok, ok-injective}
use seck.Crypto.{Scheme, Schemes, slh_dsa_keypair, slh_dsa_verify, sign_with, verify_with}
use seck.Release.{
  Files, Disk, SignArgs, VerifyArgs, ReleaseError, read_file, or_fails, put, write, make_sig,
  release_sign, check_sig, exit_of, verify_release,
}

-- What the documentation of a scheme says of a pair of keys: bytes that were written are read back, and
-- a signature by the one key is verified by the other.
pub record Signs (s : Scheme) (pk : s.PublicKey) (sk : s.SecretKey) : Type 0 where
  pub public_back : s.public_of (s.public_bytes pk) ≡ some pk
  pub secret_back : s.secret_of (s.secret_bytes sk) ≡ some sk
  pub signature_back : (t : s.DetachedSignature) → s.signature_of (s.signature_bytes t) ≡ some t
  pub verifies : (m : Bytes) → s.verify_detached_signature (s.detached_sign m sk) m pk ≡ true

put_same : (path : Bytes) (content : Option Bytes) (fs : Files) → put path content fs path ≡ content
unfolding put
put_same path content fs = rw (equal_refl path) refl

put_other :
    (path q : Bytes) (content : Option Bytes) (fs : Files) → path ≢ q → put path content fs q ≡ fs q
unfolding put
put_other path q content fs n = ground (arith, equal_iff path q, n)

-- All files can be read, and the test of the signature has the answer `b`.
pub record Checked (p : Schemes) (a : VerifyArgs) (fs : Files) (b : Bool) : Type 0 where
  pub pk : Bytes
  pub msg : Bytes
  pub sig : Bytes
  pub pk_is : fs a.pubkey ≡ some pk
  pub msg_is : fs a.binary ≡ some msg
  pub sig_is : fs a.sig ≡ some sig
  pub answer_is : slh_dsa_verify p pk msg sig ≡ b

or_fails-eq-ok :
    {A : Type 0} (e : ReleaseError) (o : Option A) {a : A} → or_fails e o ≡ ok a → o ≡ some a
or_fails-eq-ok e none h = cc
or_fails-eq-ok e (some b) h = cc

exit_of-eq : (r : Result ReleaseError Bool) (b : Bool) → exit_of r ≡ exit_of (ok b) → r ≡ ok b
exit_of-eq (ok true) true h = refl
exit_of-eq (ok true) false h = ground (arith, h)
exit_of-eq (ok false) true h = ground (arith, h)
exit_of-eq (ok false) false h = refl
exit_of-eq (err e) true h = ground (arith, h)
exit_of-eq (err e) false h = ground (arith, h)

exit_of-le : (r : Result ReleaseError Bool) → exit_of r ≤ 2
exit_of-le (ok true) = omega arith
exit_of-le (ok false) = omega arith
exit_of-le (err e) = omega arith

module _ (p : Schemes) where
  check_sig-Checked :
      (a : VerifyArgs) (fs : Files) (b : Bool) → check_sig p a fs ≡ ok b → Checked p a fs b
  unfolding check_sig
  check_sig-Checked a fs b h =
      let (pk, e₁, h₁) = bind-eq-ok (or_fails read_file (fs a.pubkey)) _ h in
      let (msg, e₂, h₂) = bind-eq-ok (or_fails read_file (fs a.binary)) _ h₁ in
      let (sig, e₃, h₃) = bind-eq-ok (or_fails read_file (fs a.sig)) _ h₂ in
      record {
        pk = pk;
        msg = msg;
        sig = sig;
        pk_is = or_fails-eq-ok read_file _ e₁;
        msg_is = or_fails-eq-ok read_file _ e₂;
        sig_is = or_fails-eq-ok read_file _ e₃;
        answer_is = ok-injective h₃;
      }

  Checked-check_sig :
      (a : VerifyArgs) (fs : Files) (b : Bool) → Checked p a fs b → check_sig p a fs ≡ ok b
  unfolding check_sig
  Checked-check_sig a fs b c = rw (c.pk_is, c.msg_is, c.sig_is) (ap ok c.answer_is)

  exit_of_check_iff :
      (a : VerifyArgs) (fs : Files) (b : Bool)
      → (verify_release p a fs ≡ exit_of (ok b)) ↔ Checked p a fs b
  unfolding verify_release
  exit_of_check_iff a fs b = (
    λ h. check_sig-Checked a fs b (exit_of-eq (check_sig p a fs) b h),
    λ c. ap exit_of (Checked-check_sig a fs b c),
  )

  -- seck-verify-release exits with 0 exactly if all three files can be read and the signature is
  -- verified, with 1 exactly if they can be read and it is not, and with 0, 1 or 2 in any case.
  pub verify_release_iff :
      (a : VerifyArgs) (fs : Files)
      → ((verify_release p a fs ≡ 0) ↔ Checked p a fs true)
        × ((verify_release p a fs ≡ 1) ↔ Checked p a fs false)
        × (verify_release p a fs ≤ 2)
  unfolding verify_release
  verify_release_iff a fs =
      (exit_of_check_iff a fs true, exit_of_check_iff a fs false, exit_of-le (check_sig p a fs))

  -- The signature that is made with the drawn keys.
  abbrev pub drawn_sig : Bytes → Bytes
  drawn_sig msg = p.slh.signature_bytes (p.slh.detached_sign msg p.slh_drawn.1)

  module _ (signs : Signs p.slh p.slh_drawn.0 p.slh_drawn.1) where
    make_sig-drawn :
        (a : SignArgs) (fs : Files) (msg : Bytes)
        → fs a.key ≡ some (slh_dsa_keypair p).1
        → fs a.input ≡ some msg
        → make_sig p a fs ≡ ok (drawn_sig msg)
    unfolding make_sig sign_with
    make_sig-drawn a fs msg k i = rw (k, i, sign_with, signs.secret_back) refl

    verify_with-drawn :
        (msg : Bytes) → slh_dsa_verify p (slh_dsa_keypair p).0 msg (drawn_sig msg) ≡ true
    unfolding verify_with
    verify_with-drawn msg =
        rw (verify_with, signs.public_back, signs.signature_back) (signs.verifies msg)

    -- A release that seck-release-sign signs with the drawn keys is verified by seck-verify-release:
    -- if the key, the artifact and the public key can be read, the signature is written to a file of its
    -- own and the scheme works as documented, the signer succeeds and the verifier then exits with 0.
    pub verify_release-release_sign :
        (d : Disk) (a : SignArgs) (pubkey msg : Bytes) (fs : Files)
        → fs a.key ≡ some (slh_dsa_keypair p).1
        → fs a.input ≡ some msg
        → fs pubkey ≡ some (slh_dsa_keypair p).0
        → a.output ≢ a.input
        → a.output ≢ pubkey
        → d.writes a.output (drawn_sig msg) ≡ true
        → ((release_sign p d a fs).0 ≡ ok tt)
          × (verify_release p
                (record { pubkey = pubkey; binary = a.input; sig = a.output })
                (release_sign p d a fs).1
              ≡ 0)
    unfolding release_sign write
    verify_release-release_sign d a pubkey msg fs k i q n₁ n₂ w =
        rw (release_sign, make_sig-drawn a fs msg k i, w)
          (
            refl,
            (exit_of_check_iff _ _ true).1 record {
              pk = (slh_dsa_keypair p).0;
              msg = msg;
              sig = drawn_sig msg;
              pk_is = put_other a.output pubkey _ fs n₂ ∙ q;
              msg_is = put_other a.output a.input _ fs n₁ ∙ i;
              sig_is = put_same a.output _ fs;
              answer_is = verify_with-drawn msg;
            },
          )
