-- ===== src/Models/Download.antt =====
-- `download_verified` of crates/seck-host-net/src/download.rs and `verify_file` of
-- crates/seck-models/src/verify.rs. The URL parser, the server, the digest, letter case and what the
-- disk allows are parameters.
use seck.Base.{
  ◌≡◌, refl, sym, ap, ◌∙◌, Bool, true, false, not, Option, none, some, [], ◌∷◌, ◌++◌, ◌==◌,
  if◌then◌else◌, length, equal, equal_iff, Bytes, Text,
}
use seck.Base.Outcome.{Result, ok, err, ◌>>=◌, ◌>>◌, guard, guard-eq-ok, bind-eq-ok, ok-injective}
use seck.Base.Strings.{codes, contains}
use seck.Host.Fileset.{Answers}
use seck.Models.Hosts.{is_allowed}

pub data DlError : Type 0 where
  disallowed_host : Text → DlError
  hash_mismatch : Text → Text → DlError
  placeholder_hash : Text → DlError
  http : DlError
  io : DlError
  url : DlError

-- The contents of the files, by path.
abbrev pub Files : Type 0
Files = Bytes → Option Bytes

abbrev pub put : Bytes → Bytes → Files → Files
put path content files p = if equal path p then some content else files p

-- `parse` gives the host of a URL, if it has one. `get` are the pieces of the body of a response whose
-- status is no error, over https; a piece that is missing is an error of the connection.
pub record Network : Type 0 where
  pub to_uppercase : Text → Text
  pub to_lowercase : Text → Text
  pub hex_encode : Bytes → Text
  pub sha3_256 : Bytes → Bytes
  pub parse : Text → Option (Option Text)
  pub get : Text → Option Answers

-- What the disk allows beside the destination: a directory, a temporary file with that content, and
-- its renaming.
pub record Disk : Type 0 where
  pub create_dir_all : Bool
  pub new_file : Bool
  pub write_all : Bytes → Bool
  pub persist : Bool

abbrev pub required {ℓ} : {A : Type ℓ} → DlError → Option A → Result DlError A
required e none = err e
required e (some a) = ok a

module _ (n : Network) (d : Disk) where
  -- What went into the temporary file, which is also what was hashed.
  unfoldable pub copy_loop : Bytes → Answers → Result DlError Bytes
  copy_loop out [] = ok out
  copy_loop out (none ∷ rest) = err io
  copy_loop out (some buf ∷ rest) =
      let more = copy_loop (out ++ buf) rest in
      if length buf == 0 then ok out else if d.write_all buf then more else err io

  abbrev pub lower : Text → Text
  lower t = n.to_lowercase t

  -- The file takes its place if its digest is the one expected.
  unfoldable pub check_digest : Text → Bytes → Result DlError Bytes
  check_digest expected content = do
    guard (equal (n.hex_encode (n.sha3_256 content)) (lower expected))
        (hash_mismatch expected (n.hex_encode (n.sha3_256 content)))
    guard d.persist io
    ok content

  unfoldable pub save : Text → Answers → Result DlError Bytes
  unfolding copy_loop check_digest
  save expected resp = do
    guard d.create_dir_all io
    guard d.new_file io
    content ← copy_loop [] resp
    check_digest expected content

  -- The content that is put at the destination.
  unfoldable pub fetch : Text → Text → Result DlError Bytes
  unfolding save
  fetch u expected = do
    guard (not (contains (codes "REPLACE_AT_RELEASE") (n.to_uppercase expected)))
        (placeholder_hash expected)
    parsed ← required url (n.parse u)
    host ← required url parsed
    guard (is_allowed host) (disallowed_host host)
    resp ← required http (n.get u)
    save expected resp

  abbrev pub persisted : Bytes → Files → Result DlError Bytes → Result DlError (Unit {0}) × Files
  persisted dest files (ok content) = (ok tt, put dest content files)
  persisted dest files (err e) = (err e, files)

  unfoldable pub download_verified : Text → Text → Bytes → Files → Result DlError (Unit {0}) × Files
  unfolding fetch
  download_verified u expected dest files = persisted dest files (fetch u expected)

  unfoldable pub verify_file : Files → Bytes → Text → Bool
  verify_file files path expected = elim (files path) [
    | none ↦ false
    | some bytes ↦ equal (n.hex_encode (n.sha3_256 bytes)) (lower expected)
  ]

  -- The host of the URL is allowed, and the content has the digest.
  pub record IsVerified (u expected : Text) (content : Bytes) : Type 0 where
    pub host : Text
    pub host_is : n.parse u ≡ some (some host)
    pub allowed : is_allowed host ≡ true
    pub no_placeholder : contains (codes "REPLACE_AT_RELEASE") (n.to_uppercase expected) ≡ false
    pub digest_is : n.hex_encode (n.sha3_256 content) ≡ lower expected

  required-eq-ok {ℓ} :
      {A : Type ℓ} (e : DlError) (o : Option A) {a : A} → required e o ≡ ok a → o ≡ some a
  required-eq-ok e none h = cc
  required-eq-ok e (some b) h = cc

  not-true : (b : Bool) → not b ≡ true → b ≡ false
  not-true true h = cc
  not-true false h = refl

  digest-eq-ok :
      (expected : Text) (x content : Bytes)
      → check_digest expected x ≡ ok content
      → n.hex_encode (n.sha3_256 content) ≡ lower expected
  unfolding check_digest
  digest-eq-ok expected x content h =
      let (same, h₁) =
        guard-eq-ok (equal (n.hex_encode (n.sha3_256 x)) (lower expected)) _
          (do guard d.persist io; ok x) h in
      let (p, last) = guard-eq-ok d.persist io (ok x) h₁ in
      ap (λ (y : Bytes). n.hex_encode (n.sha3_256 y)) (sym (ok-injective last))
      ∙ (equal_iff _ _).0 same

  save-eq-ok :
      (expected : Text) (resp : Answers) (content : Bytes)
      → save expected resp ≡ ok content
      → n.hex_encode (n.sha3_256 content) ≡ lower expected
  unfolding save
  save-eq-ok expected resp content h =
      let rest : Result DlError Bytes = (do x ← copy_loop [] resp; check_digest expected x) in
      let (a, h₁) = guard-eq-ok d.create_dir_all io (do guard d.new_file io; rest) h in
      let (b, h₂) = guard-eq-ok d.new_file io rest h₁ in
      let (x, e, h₃) = bind-eq-ok (copy_loop [] resp) (check_digest expected) h₂ in
      digest-eq-ok expected x content h₃

  pub fetch-IsVerified :
      (u expected : Text) (content : Bytes)
      → fetch u expected ≡ ok content
      → IsVerified u expected content
  unfolding fetch
  fetch-IsVerified u expected content h =
      let (p, h₁) =
        guard-eq-ok (not (contains (codes "REPLACE_AT_RELEASE") (n.to_uppercase expected))) _ _ h in
      let (parsed, e₁, h₂) = bind-eq-ok (required url (n.parse u)) _ h₁ in
      let (host, e₂, h₃) = bind-eq-ok (required url parsed) _ h₂ in
      let (a, h₄) =
        guard-eq-ok (is_allowed host) (disallowed_host host)
          (required http (n.get u) >>= save expected) h₃ in
      let (resp, e₅, h₅) = bind-eq-ok (required http (n.get u)) (save expected) h₄ in
      record {
        host = host;
        host_is =
            required-eq-ok url (n.parse u) e₁
            ∙ ap (λ (x : Option Text). some x) (required-eq-ok url parsed e₂);
        allowed = a;
        no_placeholder = not-true _ p;
        digest_is = save-eq-ok expected resp content h₅;
      }
