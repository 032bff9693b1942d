-- ===== src/Web/Bind.antt =====
-- `resolve_bind` of crates/seck-web/src/bind.rs. The parser of addresses is the standard library's.
use seck.Base.{
  ℕ, Bool, true, ◌==◌, Option, none, some, ◌≡◌, ◌↔◌, inl, inr, refl, ap, subst, ◌∙◌, arith,
  Option-cases, Text,
}
use seck.Base.Outcome.{Result, ok, err, ◌>>◌, guard, guard-eq-ok, ok-injective}

-- The octets of an IPv4 address, or an IPv6 address as a number of 128 bits.
pub data IpAddr : Type 0 where
  v4 : ℕ → ℕ → ℕ → ℕ → IpAddr
  v6 : ℕ → IpAddr

pub record SocketAddr : Type 0 where
  pub ip : IpAddr
  pub port : ℕ

pub data BindError : Type 0 where
  not_loopback : SocketAddr → BindError
  parse : BindError

-- `Ipv4Addr::is_loopback` is 127.0.0.0/8, `Ipv6Addr::is_loopback` is ::1.
unfoldable pub is_loopback : IpAddr → Bool
is_loopback (v4 a b c d) = a == 127
is_loopback (v6 n) = n == 1

unfoldable pub resolve_bind : (Text → Option SocketAddr) → Text → Result BindError SocketAddr
unfolding is_loopback
resolve_bind parse_addr s = elim (parse_addr s) [
  | none ↦ err parse
  | some addr ↦ do guard (is_loopback addr.ip) (not_loopback addr); ok addr
]

-- The addresses of this machine alone.
pub data IsLocal : IpAddr → Type 0 where
  local4 : (b c d : ℕ) → IsLocal (v4 127 b c d)
  local6 : IsLocal (v6 1)

IsLocal-iff : (ip : IpAddr) → (is_loopback ip ≡ true) ↔ IsLocal ip
unfolding is_loopback
IsLocal-iff (v4 a b c d) = (λ h. of_eq a (ground arith), back a)
  where
    of_eq : (a : ℕ) → a ≡ 127 → IsLocal (v4 a b c d)
    of_eq a e = rw e (local4 b c d)

    back : (a : ℕ) → IsLocal (v4 a b c d) → (a == 127) ≡ true
    back a (local4 b c d) = refl
IsLocal-iff (v6 n) = (λ h. of_eq n (ground arith), back n)
  where
    of_eq : (n : ℕ) → n ≡ 1 → IsLocal (v6 n)
    of_eq n e = rw e local6

    back : (n : ℕ) → IsLocal (v6 n) → (n == 1) ≡ true
    back n local6 = refl

-- The server binds to an address exactly if the text names it and it is an address of this machine
-- alone; every other text is refused.
pub resolve_bind_iff :
    (parse_addr : Text → Option SocketAddr) (s : Text) (addr : SocketAddr)
    → (resolve_bind parse_addr s ≡ ok addr) ↔ ((parse_addr s ≡ some addr) × IsLocal addr.ip)
unfolding resolve_bind
resolve_bind_iff parse_addr s addr = elim (Option-cases (parse_addr s)) [
  | inl e ↦ (λ h. cc (rw (e, resolve_bind) at h), λ h. cc (e, h.0))
  | inr (a, e) ↦ (
    λ h.
        let (g, k) =
          guard-eq-ok (is_loopback a.ip) (not_loopback a) (ok a) (rw (e, resolve_bind) at h) in
        let same = ok-injective k in
        (e ∙ ap some same, (IsLocal-iff addr.ip).0 (subst (λ x. is_loopback x.ip ≡ true) same g)),
    λ h. rw (h.0, resolve_bind) (rw ((IsLocal-iff addr.ip).1 h.1) refl),
  )
]
