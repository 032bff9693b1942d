-- ===== src/Pair.antt =====
-- crates/seck-pair: the endpoint of src/wg.rs and the pairing bundle of src/pairing.rs. X25519, the
-- random keys, SHA3-256, hex and the printing of addresses are parameters.
pub mod Laws
pub mod Fingerprint
mod Runs
use seck.Base.{
  ℕ, ◌/◌, ◌^◌, Bool, true, false, not, ◌&&◌, ◌||◌, if◌then◌else◌, List, [], ◌∷◌, ◌++◌, leb, ◌==◌,
  replicate, equal, Bytes, Text,
}
use seck.Base.Outcome.{Result, ok, err, ◌>>=◌, ◌>>◌, guard}
use seck.Base.Strings.{codes, decimal}
use seck.Web.Bind.{IpAddr, v4, v6, SocketAddr}

pub record WgEndpoint : Type 0 where
  pub host_private : Bytes
  pub host_public : Bytes
  pub peer_public : Bytes
  pub psk : Bytes
  pub bind_addr : SocketAddr

-- `[0u8; 32]`
abbrev pub zero_key : Bytes
zero_key = replicate 32 0

-- The keys are drawn at random; the peer is not known yet.
abbrev pub new_random : Bytes → Bytes → Bytes → SocketAddr → WgEndpoint
new_random host_private host_public psk bind_addr = record {
  host_private = host_private;
  host_public = host_public;
  peer_public = zero_key;
  psk = psk;
  bind_addr = bind_addr;
}

unfoldable pub is_paired : WgEndpoint → Bool
is_paired ep = not (equal ep.peer_public zero_key)

pub data PairError : Type 0 where
  already_paired : PairError
  zero_peer : PairError
  bad_lan_ip : PairError
  not_private : IpAddr → PairError

-- The endpoint from then on, and the answer.
unfoldable pub set_peer : Bytes → WgEndpoint → WgEndpoint × Result PairError (Unit {0})
set_peer peer_public ep =
    if not (equal ep.peer_public zero_key)
    then (ep, err already_paired)
    else if equal peer_public zero_key
    then (ep, err zero_peer)
    else (record ep { peer_public = peer_public }, ok tt)

abbrev within : ℕ → ℕ → ℕ → Bool
within lo hi n = leb lo n && leb n hi

-- The tests of `Ipv4Addr` by octets; of IPv6, `(segments()[0] & 0xfe00) == 0xfc00` as a range of the
-- upper 16 bits.
unfoldable pub is_private_ip : IpAddr → Bool
is_private_ip (v4 a b c d) =
    a == 127
    || (a == 10 || (a == 172 && within 16 31 b) || (a == 192 && b == 168))
    || (a == 169 && b == 254)
    || (a == 100 && within 64 127 b)
is_private_ip (v6 n) = n == 1 || within 0xfc00 0xfdff (n / 2 ^ 112)

pub record PairingBundle : Type 0 where
  pub host_public_hex : Text
  pub psk_hex : Text
  pub host_endpoint : Text
  pub fingerprint_sha3_256 : Text

module _ (hex_encode : Bytes → Text) (sha3_256 : Bytes → Bytes) (show_ip : IpAddr → Text) where
  unfoldable pub bundle_of : WgEndpoint → IpAddr → PairingBundle
  bundle_of ep ip = record {
    host_public_hex = hex_encode ep.host_public;
    psk_hex = hex_encode ep.psk;
    host_endpoint = show_ip ip ++ (codes ":" ++ decimal ep.bind_addr.port);
    fingerprint_sha3_256 = hex_encode (sha3_256 (ep.host_public ++ ep.psk));
  }

  unfoldable pub build_bundle_with_ip : WgEndpoint → IpAddr → Result PairError PairingBundle
  unfolding is_private_ip bundle_of
  build_bundle_with_ip ep ip = do guard (is_private_ip ip) (not_private ip); ok (bundle_of ep ip)
