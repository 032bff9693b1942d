-- ===== src/Cli/PairRun/Shown.antt =====
-- What `seck pair` shows when it succeeds.
use seck.Base.{
  refl, [], ◌∷◌, subst, ℕ, ◌++◌, Option-cases, inl, inr, ◌≡◌, sym, ap, ◌∙◌, Option, none, some,
  List, Bytes, Text,
}
use seck.Base.Outcome.{Result, ok, err, bind-eq-ok, guard-eq-ok, ok-injective}
use seck.Base.Strings.{codes, decimal}
use seck.Base.Utf8.{IsAscii}
use seck.Web.Bind.{v4, IpAddr, SocketAddr}
use seck.Pair.{
  PairError, PairingBundle, not_private, is_private_ip, bundle_of, build_bundle_with_ip,
}
use seck.Pair.Laws.{IsPrivate, build_bundle_with_ip_iff}
use seck.Pair.Fingerprint.{
  lan_ip, build_bundle, format_fingerprint, without_spaces, HasNoSpace,
  without_spaces-format_fingerprint,
}
use seck.Cli.PairRun.{
  PairWorld, PairRunError, encode_panics, or_error, in_building, printed, endpoint, pair_run,
}

or_error-eq-ok :
    {A : Type 0} (e : PairRunError) (o : Option A) {a : A} → or_error e o ≡ ok a → o ≡ some a
or_error-eq-ok e none h = cc
or_error-eq-ok e (some b) h = cc

in_building-eq-ok : {A : Type 0} (r : Result PairError A) {a : A} → in_building r ≡ ok a → r ≡ ok a
in_building-eq-ok (ok b) h = ap ok (ok-injective h)
in_building-eq-ok (err e) h = cc

module _ (w : PairWorld) where
  -- The bundle of an endpoint that listens at a port.
  abbrev pub bundle_at : SocketAddr → IpAddr → PairingBundle
  bundle_at addr ip = bundle_of w.hex_encode w.sha3_256 w.show_ip (endpoint w addr) ip

  -- The address is the variable's, or 127.0.0.1 if that is not set.
  pub data IsLanIp : IpAddr → Type 0 where
    default : w.seck_pair_lan_ip ≡ none → IsLanIp (v4 127 0 0 1)
    named :
        (t : Text) (ip : IpAddr) → w.seck_pair_lan_ip ≡ some t → w.parse_ip t ≡ some ip → IsLanIp ip

  -- What is shown for a port, and what it says of the keys.
  pub record Shown (port : ℕ) (ls : List Text) : Type 0 where
    pub ip : IpAddr
    pub code : Text
    pub fingerprint : Text
    pub ip_is : IsLanIp ip
    pub private_is : IsPrivate ip
    pub code_is :
        w.encode (
          w.to_string record {
            host_public_hex = w.hex_encode w.host_public;
            psk_hex = w.hex_encode w.psk;
            host_endpoint = w.show_ip ip ++ (codes ":" ++ decimal port);
            fingerprint_sha3_256 = w.hex_encode (w.sha3_256 (w.host_public ++ w.psk));
          })
        ≡ some code
    pub lines_are :
        ls
        ≡ code
          ∷ []
          ∷ (codes "Fingerprint: " ++ fingerprint)
          ∷ codes "Confirm this fingerprint matches on your mobile device."
          ∷ (codes "Endpoint: " ++ (w.show_ip ip ++ (codes ":" ++ decimal port)))
          ∷ []
          ∷ codes
              "(The MCP-over-WG service will be launched in a follow-up; this CLI ships pairing.)"
          ∷ []
    pub fingerprint_is :
        without_spaces fingerprint ≡ w.hex_encode (w.sha3_256 (w.host_public ++ w.psk))

  lan_ip-IsLanIp :
      (o : Option Text) (ip : IpAddr)
      → w.seck_pair_lan_ip ≡ o
      → lan_ip w.parse_ip o ≡ ok ip
      → IsLanIp ip
  unfolding lan_ip
  lan_ip-IsLanIp none ip e h = subst IsLanIp (ok-injective h) (default e)
  lan_ip-IsLanIp (some t) ip e h = elim (Option-cases (w.parse_ip t)) [
    | inl n ↦ let h₁ = rw (n, lan_ip) at h in cc
    | inr (i, n) ↦ let h₁ = rw (n, lan_ip) at h in named t ip e (n ∙ ap some (ok-injective h₁))
  ]

  build_bundle-eq-ok :
      (addr : SocketAddr) {b : PairingBundle}
      → build_bundle w.hex_encode w.sha3_256 w.show_ip w.parse_ip w.seck_pair_lan_ip
          (endpoint w addr)
        ≡ ok b
      → (ip : IpAddr) × (lan_ip w.parse_ip w.seck_pair_lan_ip ≡ ok ip)
        × IsPrivate ip
        × (bundle_at addr ip ≡ b)
  unfolding build_bundle build_bundle_with_ip
  build_bundle-eq-ok addr h =
      let (ip, e, h₁) = bind-eq-ok (lan_ip w.parse_ip w.seck_pair_lan_ip) _ h in
      let (private, h₂) =
        guard-eq-ok (is_private_ip ip) (not_private ip) (ok (bundle_at addr ip)) h₁ in
      (
        ip,
        e,
        (build_bundle_with_ip_iff w.hex_encode w.sha3_256 w.show_ip (endpoint w addr) ip).0 (_, h₁),
        ok-injective h₂,
      )

  module _ (ascii : (b : Bytes) → IsAscii (w.hex_encode b))
      (no_space : (b : Bytes) → HasNoSpace (w.hex_encode b)) where
    -- If `seck pair` succeeds, it has shown the code of a bundle for the drawn keys, its fingerprint and
    -- its endpoint: the address is that of SECK_PAIR_LAN_IP, or 127.0.0.1 if this is not set, and is
    -- private, whatever address `--bind` names, of which only the port is shown; without its spaces, the
    -- fingerprint shown is the hex form of the digest of the two keys, if hex gives ASCII without spaces.
    pub pair_run-Shown :
        (bind : Text) (addr : SocketAddr) (ls : List Text)
        → w.parse_addr bind ≡ some addr
        → pair_run w bind ≡ ok ls
        → Shown addr.port ls
    unfolding pair_run bundle_of
    pair_run-Shown bind addr ls at h =
        let h₀ = rw at at h in
        let (b, e, h₁) =
          bind-eq-ok
            (in_building (
              build_bundle w.hex_encode w.sha3_256 w.show_ip w.parse_ip w.seck_pair_lan_ip
                (endpoint w addr)))
            _ h₀ in
        let (code, e₂, h₂) = bind-eq-ok (or_error encode_panics (w.encode (w.to_string b))) _ h₁ in
        let (ip, ip_is, private, same) = build_bundle-eq-ok addr (in_building-eq-ok _ e) in
        record {
          ip = ip;
          code = code;
          fingerprint = format_fingerprint (bundle_at addr ip).fingerprint_sha3_256;
          ip_is = lan_ip-IsLanIp w.seck_pair_lan_ip ip refl ip_is;
          private_is = private;
          code_is = ap (λ x. w.encode (w.to_string x)) same ∙ or_error-eq-ok encode_panics _ e₂;
          lines_are = sym (ok-injective h₂) ∙ ap (printed code) (sym same);
          fingerprint_is = without_spaces-format_fingerprint _ (ascii _) (no_space _);
        }
