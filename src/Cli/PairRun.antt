-- ===== src/Cli/PairRun.antt =====
-- crates/seck-cli/src/pair.rs: the command `pair`, which shows the bundle of a new endpoint. The random
-- keys, the environment, the parsers and printers of addresses, hex, SHA3-256, serde_json and the QR
-- code are parameters. A fingerprint is ASCII, where a text is its bytes.
pub mod Shown
mod Runs
use seck.Base.{Option, none, some, List, [], ◌∷◌, ◌++◌, Bytes, Text}
use seck.Base.Outcome.{Result, ok, err, ◌>>=◌}
use seck.Base.Strings.{codes}
use seck.Web.Bind.{IpAddr, SocketAddr}
use seck.Pair.{WgEndpoint, new_random, PairError, PairingBundle}
use seck.Pair.Fingerprint.{build_bundle, format_fingerprint}

-- `encode` is none where the text is too long for a code, which panics.
pub record PairWorld : Type 0 where
  pub host_private : Bytes
  pub host_public : Bytes
  pub psk : Bytes
  pub parse_addr : Text → Option SocketAddr
  pub parse_ip : Text → Option IpAddr
  pub show_ip : IpAddr → Text
  pub seck_pair_lan_ip : Option Text
  pub hex_encode : Bytes → Text
  pub sha3_256 : Bytes → Bytes
  pub to_string : PairingBundle → Text
  pub encode : Text → Option Text

pub data PairRunError : Type 0 where
  bad_bind encode_panics : PairRunError
  building : PairError → PairRunError

abbrev pub or_error {ℓ} : {A : Type ℓ} → PairRunError → Option A → Result PairRunError A
or_error e none = err e
or_error e (some a) = ok a

abbrev pub in_building {ℓ} : {A : Type ℓ} → Result PairError A → Result PairRunError A
in_building (ok a) = ok a
in_building (err e) = err (building e)

-- What is printed, line by line, behind the code.
abbrev pub printed : Text → PairingBundle → List Text
printed code bundle =
    code
    ∷ []
    ∷ (codes "Fingerprint: " ++ format_fingerprint bundle.fingerprint_sha3_256)
    ∷ codes "Confirm this fingerprint matches on your mobile device."
    ∷ (codes "Endpoint: " ++ bundle.host_endpoint)
    ∷ []
    ∷ codes "(The MCP-over-WG service will be launched in a follow-up; this CLI ships pairing.)"
    ∷ []

module _ (w : PairWorld) where
  abbrev pub endpoint : SocketAddr → WgEndpoint
  endpoint addr = new_random w.host_private w.host_public w.psk addr

  unfoldable pub pair_run : Text → Result PairRunError (List Text)
  unfolding build_bundle format_fingerprint
  pair_run bind = do
    addr ← or_error bad_bind (w.parse_addr bind)
    bundle ← in_building (
        build_bundle w.hex_encode w.sha3_256 w.show_ip w.parse_ip w.seck_pair_lan_ip
          (endpoint addr))
    code ← or_error encode_panics (w.encode (w.to_string bundle))
    ok (printed code bundle)
