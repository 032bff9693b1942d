-- ===== src/Crypto/Streams.antt =====
-- The digest of pieces, and the keys of the ciphers and of the encapsulation in use.
use seck.Base.{◌≡◌, sym, ap, ◌∙◌, List, [], ◌∷◌, ◌++◌, Bytes}
use seck.Base.Strings.{flatten}
use seck.Crypto.{Digest, sha3_256, update_all, hash_pieces}

-- What the documentation of a digest says of its state: it is given a message piece by piece.
pub record IsStream (d : Digest) : Type 0 where
  pub update-nil : (h : d.State) → d.update h [] ≡ h
  pub update-append : (h : d.State) (a b : Bytes) → d.update (d.update h a) b ≡ d.update h (a ++ b)

module _ (d : Digest) (s : IsStream d) where
  update_all-flatten : (h : d.State) (ms : List Bytes) → update_all d h ms ≡ d.update h (flatten ms)
  unfolding update_all
  update_all-flatten h [] = sym (s.update-nil h)
  update_all-flatten h (m ∷ ms) =
      update_all-flatten (d.update h m) ms ∙ s.update-append h m (flatten ms)

  -- A `Hasher` that is given a message in pieces has the digest of the whole message, however it is cut,
  -- if the digest works as documented.
  hash_pieces-flatten : (ms : List Bytes) → hash_pieces d ms ≡ sha3_256 d (flatten ms)
  unfolding sha3_256
  hash_pieces-flatten ms = ap d.finalize (update_all-flatten d.start ms)
