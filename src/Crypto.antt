-- ===== src/Crypto.antt =====
-- crates/seck-crypto: the signatures of src/sign.rs, the key encapsulation of src/kem.rs, the digest of
-- src/hash.rs, the ciphers of src/sym.rs and the gate of src/fips.rs over the primitives that they
-- wrap. A call that panics is `none`. src/kdf.rs and src/device_key.rs stand in `Cli.AuditLog`.
use seck.Base.{Bool, true, false, Option, none, some, List, [], ◌∷◌, if◌then◌else◌, Bytes, Text}
use seck.Base.Outcome.{Result, ok, err}
pub mod Streams

-- A scheme for detached signatures. A key or a signature is read from bytes if they have its length.
pub record Scheme : Type 1 where
  pub PublicKey : Type 0
  pub SecretKey : Type 0
  pub DetachedSignature : Type 0
  pub public_of : Bytes → Option PublicKey
  pub public_bytes : PublicKey → Bytes
  pub secret_of : Bytes → Option SecretKey
  pub secret_bytes : SecretKey → Bytes
  pub signature_of : Bytes → Option DetachedSignature
  pub signature_bytes : DetachedSignature → Bytes
  pub detached_sign : Bytes → SecretKey → DetachedSignature
  pub verify_detached_signature : DetachedSignature → Bytes → PublicKey → Bool

module _ (s : Scheme) where
  abbrev pub pair_bytes : s.PublicKey × s.SecretKey → Bytes × Bytes
  pair_bytes (pk, sk) = (s.public_bytes pk, s.secret_bytes sk)

  unfoldable pub sign_with : Bytes → Bytes → Option Bytes
  sign_with sk msg = elim (s.secret_of sk) [
    | none ↦ none
    | some k ↦ some (s.signature_bytes (s.detached_sign msg k))
  ]

  unfoldable pub verify_with : Bytes → Bytes → Bytes → Bool
  verify_with pk msg sig = elim (s.public_of pk) [
    | none ↦ false
    | some k ↦ elim (s.signature_of sig) [
      | none ↦ false
      | some t ↦ s.verify_detached_signature t msg k
    ]
  ]

-- SLH-DSA-SHAKE-128s and ML-DSA-65, with the keys that are drawn.
pub record Schemes : Type 1 where
  pub slh : Scheme
  pub mldsa : Scheme
  pub slh_drawn : slh.PublicKey × slh.SecretKey
  pub mldsa_drawn : mldsa.PublicKey × mldsa.SecretKey

module _ (p : Schemes) where
  abbrev pub slh_dsa_keypair : Bytes × Bytes
  slh_dsa_keypair = pair_bytes p.slh p.slh_drawn

  abbrev pub slh_dsa_sign : Bytes → Bytes → Option Bytes
  slh_dsa_sign sk msg = sign_with p.slh sk msg

  abbrev pub slh_dsa_verify : Bytes → Bytes → Bytes → Bool
  slh_dsa_verify pk msg sig = verify_with p.slh pk msg sig

  abbrev pub ml_dsa_keypair : Bytes × Bytes
  ml_dsa_keypair = pair_bytes p.mldsa p.mldsa_drawn

  abbrev pub ml_dsa_sign : Bytes → Bytes → Option Bytes
  ml_dsa_sign sk msg = sign_with p.mldsa sk msg

  abbrev pub ml_dsa_verify : Bytes → Bytes → Bytes → Bool
  ml_dsa_verify pk msg sig = verify_with p.mldsa pk msg sig

-- SHA3-256 as a stream.
pub record Digest : Type 1 where
  pub State : Type 0
  pub start : State
  pub update : State → Bytes → State
  pub finalize : State → Bytes

module _ (d : Digest) where
  unfoldable pub sha3_256 : Bytes → Bytes
  sha3_256 m = d.finalize (d.update d.start m)

  -- A `Hasher` that is given the pieces one after the other.
  unfoldable pub update_all : d.State → List Bytes → d.State
  update_all h [] = h
  update_all h (m ∷ ms) = update_all (d.update h m) ms

  abbrev pub hash_pieces : List Bytes → Bytes
  hash_pieces ms = d.finalize (update_all d.start ms)

pub data SymError : Type 0 where
  aead : Text → SymError

-- A cipher with associated data; its calls take the key, the nonce, the message and the data.
pub record Cipher : Type 0 where
  pub encrypt : Bytes → Bytes → Bytes → Bytes → Result Text Bytes
  pub decrypt : Bytes → Bytes → Bytes → Bytes → Result Text Bytes

abbrev pub map_aead : Result Text Bytes → Result SymError Bytes
map_aead (ok b) = ok b
map_aead (err e) = err (aead e)

module _ (aes256gcmsiv xchacha20poly1305 : Cipher) where
  abbrev pub aes256gcmsiv_encrypt : Bytes → Bytes → Bytes → Bytes → Result SymError Bytes
  aes256gcmsiv_encrypt key nonce pt aad = map_aead (aes256gcmsiv.encrypt key nonce pt aad)

  abbrev pub aes256gcmsiv_decrypt : Bytes → Bytes → Bytes → Bytes → Result SymError Bytes
  aes256gcmsiv_decrypt key nonce ct aad = map_aead (aes256gcmsiv.decrypt key nonce ct aad)

  abbrev pub xchacha20poly1305_encrypt : Bytes → Bytes → Bytes → Bytes → Result SymError Bytes
  xchacha20poly1305_encrypt key nonce pt aad = map_aead (xchacha20poly1305.encrypt key nonce pt aad)

  abbrev pub xchacha20poly1305_decrypt : Bytes → Bytes → Bytes → Bytes → Result SymError Bytes
  xchacha20poly1305_decrypt key nonce ct aad = map_aead (xchacha20poly1305.decrypt key nonce ct aad)

-- ML-KEM-768, with what the encapsulation draws.
pub record Kem : Type 1 where
  pub EncapsKey : Type 0
  pub DecapsKey : Type 0
  pub Ciphertext : Type 0
  pub encaps_of : Bytes → Option EncapsKey
  pub decaps_of : Bytes → Option DecapsKey
  pub ciphertext_of : Bytes → Option Ciphertext
  pub ciphertext_bytes : Ciphertext → Bytes
  pub encapsulate : EncapsKey → Bytes × Ciphertext
  pub decapsulate : Ciphertext → DecapsKey → Bytes

module _ (k : Kem) where
  abbrev pub shared_bytes : Bytes × k.Ciphertext → Bytes × Bytes
  shared_bytes (ss, ct) = (ss, k.ciphertext_bytes ct)

  unfoldable pub mlkem768_encapsulate : Bytes → Option (Bytes × Bytes)
  mlkem768_encapsulate pk = elim (k.encaps_of pk) [
    | none ↦ none
    | some key ↦ some (shared_bytes (k.encapsulate key))
  ]

  unfoldable pub mlkem768_decapsulate : Bytes → Bytes → Option Bytes
  mlkem768_decapsulate sk ct = elim (k.decaps_of sk) [
    | none ↦ none
    | some key ↦ elim (k.ciphertext_of ct) [ none ↦ none | some c ↦ some (k.decapsulate c key) ]
  ]

-- The flag FIPS_MODE is passed in and returned.
abbrev pub enable_fips : Bool → Bool
enable_fips fips_mode = true

unfoldable pub assert_fips_compatible : Bool → Result Text (Unit {0})
assert_fips_compatible fips_mode = if fips_mode then ok tt else ok tt
