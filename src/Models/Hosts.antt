-- ===== src/Models/Hosts.antt =====
-- The allowlist of crates/seck-host-net/src/pin.rs.
use seck.Base.{
  ◌≡◌, ◌↔◌, ◌⊎◌, refl, ap, arith, Bool, true, false, ◌||◌, Bool-cases, inl, inr, List, [], ◌∷◌,
  ◌++◌, equal, equal_iff, Text,
}
use seck.Base.Strings.{codes}

abbrev pub allowed_hosts : List Text
allowed_hosts =
    codes "huggingface.co"
    ∷ codes "cdn-lfs.huggingface.co"
    ∷ codes "cdn-lfs-us-1.hf.co"
    ∷ codes "cdn-lfs-eu-1.hf.co"
    ∷ codes "github.com"
    ∷ codes "objects.githubusercontent.com"
    ∷ codes "raw.githubusercontent.com"
    ∷ codes "release-assets.githubusercontent.com"
    ∷ []

-- `text.ends_with(suffix)`
unfoldable pub ends_with : Text → Text → Bool
ends_with suffix [] = equal [] suffix
ends_with suffix (c ∷ s) = equal (c ∷ s) suffix || ends_with suffix s

unfoldable pub is_one_of : Text → List Text → Bool
unfolding ends_with
is_one_of host [] = false
is_one_of host (h ∷ hs) = (equal host h || ends_with (b'.' ∷ h) host) || is_one_of host hs

unfoldable pub is_allowed : Text → Bool
unfolding is_one_of
is_allowed host = is_one_of host allowed_hosts

pub ends_with_iff :
    (suffix s : Text) → (ends_with suffix s ≡ true) ↔ ((front : Text) × (s ≡ front ++ suffix))
unfolding ends_with
ends_with_iff suffix s = (there suffix s, λ w. back suffix s w.0 w.1)
  where
    there : (suffix s : Text) → ends_with suffix s ≡ true → (front : Text) × (s ≡ front ++ suffix)
    there suffix [] h = ([], (equal_iff [] suffix).0 h)
    there suffix (c ∷ s) h = elim (Bool-cases (equal (c ∷ s) suffix)) [
      | inl e ↦ ([], (equal_iff (c ∷ s) suffix).0 e)
      | inr e ↦ let (front, e') = there suffix s (rw e at h) in (c ∷ front, ap (◌∷◌ c) e')
    ]

    back : (suffix s front : Text) → s ≡ front ++ suffix → ends_with suffix s ≡ true
    back suffix [] [] e = (equal_iff [] suffix).1 e
    back suffix [] (d ∷ front) e = cc
    back suffix (c ∷ s) [] e = rw ((equal_iff (c ∷ s) suffix).1 e) refl
    back suffix (c ∷ s) (d ∷ front) e = ground (arith, back suffix s front (cc))

-- The host is listed, or is a subdomain of a listed one.
abbrev pub IsUnder : Text → List Text → Type 0
IsUnder host [] = ⊥
IsUnder host (h ∷ hs) = ((host ≡ h) ⊎ ((sub : Text) × (host ≡ sub ++ (b'.' ∷ h)))) ⊎ IsUnder host hs

one_of_iff : (host : Text) (hs : List Text) → (is_one_of host hs ≡ true) ↔ IsUnder host hs
unfolding is_one_of
one_of_iff host [] = ground arith
one_of_iff host (h ∷ hs) =
    ground (arith, one_of_iff host hs, equal_iff host h, ends_with_iff (b'.' ∷ h) host)

-- Exactly the listed hosts and their subdomains are allowed.
pub is_allowed_iff : (host : Text) → (is_allowed host ≡ true) ↔ IsUnder host allowed_hosts
unfolding is_allowed
is_allowed_iff host = one_of_iff host allowed_hosts
