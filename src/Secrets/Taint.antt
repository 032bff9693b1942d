-- ===== src/Secrets/Taint.antt =====
-- The wrappers of crates/seck-taint/src/lib.rs. What they keep from being written in Rust is not
-- modelled; what the conversions do is. A drop that does not run is `ManuallyDrop`'s.
use seck.Base.{◌≡◌, ◌↔◌, Bool, true, equal, equal_iff, Bytes}

pub record Tainted {ℓ} (T : Type ℓ) : Type ℓ where
  pub inner : T

pub record Untainted {ℓ} (T : Type ℓ) : Type ℓ where
  pub inner : T

pub record FriendKey : Type 0 where
  pub key : Unit {0}

pub record SinkToken : Type 0 where
  pub private : Unit {0}

-- The three constants are one value.
abbrev pub for_seck_fd : FriendKey
for_seck_fd = record { key = tt }

abbrev pub for_seck_host : FriendKey
for_seck_host = record { key = tt }

abbrev pub for_seck_report : FriendKey
for_seck_report = record { key = tt }

abbrev pub new_friend : FriendKey → SinkToken
new_friend k = record { private = tt }

module _ {ℓ} {T : Type ℓ} where
  abbrev pub new_internal : T → Tainted T
  new_internal x = record { inner = x }

  abbrev pub into_inner_for_sink : Tainted T → SinkToken → T
  into_inner_for_sink t token = t.inner

  abbrev pub untainted_new : T → Untainted T
  untainted_new x = record { inner = x }

  abbrev pub into_inner : Untainted T → T
  into_inner u = u.inner

-- `ct_eq` of subtle compares slices as `==` does, in constant time.
unfoldable pub ct_eq : Tainted Bytes → Tainted Bytes → Bool
ct_eq a b = equal a.inner b.inner

pub ct_eq_iff : (a b : Tainted Bytes) → (ct_eq a b ≡ true) ↔ (a.inner ≡ b.inner)
unfolding ct_eq
ct_eq_iff a b = equal_iff a.inner b.inner
