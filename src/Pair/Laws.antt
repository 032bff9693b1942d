-- ===== src/Pair/Laws.antt =====
-- One peer for the life of an endpoint, and private addresses alone in a bundle.
use seck.Base.{
  ◌/◌, ◌^◌, ◌≤◌, ◌≡◌, ◌⊎◌, ◌↔◌, inl, inr, refl, ap, ◌∙◌, arith, true, false, List, [], ◌∷◌,
  if◌then◌else◌, equal, equal_refl, Bool-cases, Bytes, Text,
}
use seck.Base.Outcome.{ok, guard-eq-ok}
use seck.Web.Bind.{IpAddr, v4, v6}
use seck.Pair.{
  WgEndpoint, zero_key, set_peer, is_private_ip, PairingBundle, bundle_of, build_bundle_with_ip,
  not_private,
}

-- Peers offered one after the other.
unfoldable pub set_all : WgEndpoint → List Bytes → WgEndpoint
set_all ep [] = ep
set_all ep (p ∷ ps) = set_all (set_peer p ep).0 ps

-- The first key that is not zero.
unfoldable pub first_offer : List Bytes → Bytes
first_offer [] = zero_key
first_offer (p ∷ ps) = if equal p zero_key then first_offer ps else p

set_all-paired :
    (ps : List Bytes) (ep : WgEndpoint)
    → equal ep.peer_public zero_key ≡ false
    → (set_all ep ps).peer_public ≡ ep.peer_public
unfolding set_all set_peer
set_all-paired [] ep h = refl
set_all-paired (p ∷ ps) ep h = rw (h, set_all, set_peer) (set_all-paired ps ep h)

-- An endpoint without a peer takes the first key offered that is not zero, and keeps it whatever is
-- offered later.
pub set_all-first_offer :
    (ps : List Bytes) (ep : WgEndpoint)
    → ep.peer_public ≡ zero_key
    → (set_all ep ps).peer_public ≡ first_offer ps
unfolding set_all set_peer first_offer
set_all-first_offer [] ep h = h
set_all-first_offer (p ∷ ps) ep h =
    let open_still = ap (λ k. equal k zero_key) h ∙ equal_refl zero_key in
    elim (Bool-cases (equal p zero_key)) [
      | inl z ↦ rw (open_still, set_all, set_peer) (rw z (set_all-first_offer ps ep h))
      | inr n ↦
          rw (open_still, set_all, set_peer)
            (rw n (set_all-paired ps (record ep { peer_public = p }) n))
    ]

-- Loopback, the ranges of RFC 1918, link-local and RFC 6598 addresses; ::1 and fc00::/7.
abbrev pub IsPrivate : IpAddr → Type 0
IsPrivate (v4 a b c d) =
    (a ≡ 127)
    ⊎ (a ≡ 10)
    ⊎ ((a ≡ 172) × (16 ≤ b) × (b ≤ 31))
    ⊎ ((a ≡ 192) × (b ≡ 168))
    ⊎ ((a ≡ 169) × (b ≡ 254))
    ⊎ ((a ≡ 100) × (64 ≤ b) × (b ≤ 127))
IsPrivate (v6 n) = (n ≡ 1) ⊎ ((0xfc00 ≤ n / 2 ^ 112) × (n / 2 ^ 112 ≤ 0xfdff))

IsPrivate-iff : (ip : IpAddr) → (is_private_ip ip ≡ true) ↔ IsPrivate ip
unfolding is_private_ip
IsPrivate-iff (v4 a b c d) = (λ h. ground arith, λ h. ground arith)
IsPrivate-iff (v6 n) = (λ h. ground arith, λ h. ground arith)

-- A bundle is published for exactly the private addresses, link-local ones among them.
pub build_bundle_with_ip_iff :
    (hex_encode : Bytes → Text) (sha3_256 : Bytes → Bytes) (show_ip : IpAddr → Text)
    (ep : WgEndpoint) (ip : IpAddr)
    → ((b : PairingBundle) × (build_bundle_with_ip hex_encode sha3_256 show_ip ep ip ≡ ok b))
      ↔ IsPrivate ip
unfolding build_bundle_with_ip
build_bundle_with_ip_iff hex_encode sha3_256 show_ip ep ip = (
  λ h. (IsPrivate-iff ip).0 (guard-eq-ok (is_private_ip ip) (not_private ip) _ h.1).0,
  λ h. (bundle_of hex_encode sha3_256 show_ip ep ip, rw ((IsPrivate-iff ip).1 h) refl),
)
