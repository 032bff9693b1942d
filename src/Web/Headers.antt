-- ===== src/Web/Headers.antt =====
-- `security_headers` of crates/seck-web/src/headers.rs around the handler of src/lib.rs, as `serve`
-- composes them. The headers that axum gives to an answer are a parameter.
use seck.Base.{
  ◌≡◌, refl, sym, ap, ◌∙◌, false, Bool-cases, inl, inr, Option, none, some, List, [], ◌∷◌,
  if◌then◌else◌, equal, equal_iff, All, Text,
}
use seck.Base.Outcome.{Result}
use seck.Base.Strings.{codes}
use seck.Web.Token.{StatusCode, report_handler}

abbrev pub Headers : Type 0
Headers = List (Text × Text)

unfoldable pub header_get : Text → Headers → Option Text
header_get n [] = none
header_get n ((k, v) ∷ hs) = let rest = header_get n hs in if equal n k then some v else rest

unfoldable pub remove_header : Text → Headers → Headers
remove_header n [] = []
remove_header n ((k, v) ∷ hs) =
    let rest = remove_header n hs in if equal n k then rest else (k, v) ∷ rest

-- `HeaderMap::insert`: the value takes the place of all that have the name.
abbrev pub insert_header : Text × Text → Headers → Headers
insert_header (n, v) hs = (n, v) ∷ remove_header n hs

abbrev pub insert_all : Headers → Headers → Headers
insert_all [] hs = hs
insert_all (h ∷ new) hs = insert_all new (insert_header h hs)

abbrev pub strict_headers : Headers
strict_headers =
    (
      codes "content-security-policy",
      codes
          "default-src 'none'; style-src 'self' 'unsafe-inline'; img-src 'self' data:; script-src 'none'; frame-ancestors 'none';",
    )
    ∷ (codes "cross-origin-resource-policy", codes "same-origin")
    ∷ (codes "cross-origin-opener-policy", codes "same-origin")
    ∷ (codes "x-frame-options", codes "DENY")
    ∷ (codes "x-content-type-options", codes "nosniff")
    ∷ (codes "referrer-policy", codes "no-referrer")
    ∷ (codes "cache-control", codes "no-store, max-age=0")
    ∷ []

unfoldable pub security_headers : Headers → Headers
unfolding remove_header
security_headers hs = insert_all strict_headers hs

abbrev pub with_headers :
    (Result StatusCode Text → Headers)
    → Result StatusCode Text × Text
    → (Result StatusCode Text × Headers) × Text
with_headers headers_of (r, next) = ((r, security_headers (headers_of r)), next)

-- The answer to a request with its headers, and the token from then on.
unfoldable pub answer :
    (Result StatusCode Text → Headers)
    → Text
    → Text
    → Text
    → Text
    → (Result StatusCode Text × Headers) × Text
unfolding report_handler security_headers
answer headers_of page fresh tok current =
    with_headers headers_of (report_handler page fresh tok current)

get-remove :
    (n k : Text) (hs : Headers)
    → equal n k ≡ false
    → header_get n (remove_header k hs) ≡ header_get n hs
unfolding header_get remove_header
get-remove n k [] ne = refl
get-remove n k ((j, v) ∷ hs) ne = elim (Bool-cases (equal k j)) [
  | inl e ↦
      let same = (equal_iff k j).0 e in
      let ne' : equal n j ≡ false = sym (ap (equal n) same) ∙ ne in
      rw (e, ne') (get-remove n k hs ne)
  | inr e ↦ rw (e, get-remove n k hs ne) refl
]

-- No name stands twice.
abbrev pub IsDistinct : Headers → Type 0
IsDistinct [] = Unit
IsDistinct (h ∷ hs) = All (λ k. equal h.0 k.0 ≡ false) hs × IsDistinct hs

header_get-none :
    (n : Text) (hs : Headers) → All (λ h. equal n h.0 ≡ false) hs → header_get n hs ≡ none
unfolding header_get
header_get-none n [] other = refl
header_get-none n ((k, v) ∷ hs) other = rw other.0 (header_get-none n hs other.1)

-- What is found first.
abbrev pub or_behind : Option Text → Option Text → Option Text
or_behind none behind = behind
or_behind (some v) behind = some v

insert_all-get :
    (n : Text) (new hs : Headers)
    → IsDistinct new
    → header_get n (insert_all new hs) ≡ or_behind (header_get n new) (header_get n hs)
unfolding header_get
insert_all-get n [] hs d = refl
insert_all-get n ((k, v) ∷ new) hs d = elim (Bool-cases (equal n k)) [
  | inl e ↦
      let same = (equal_iff n k).0 e in
      let later = ap (λ x. header_get x new) same ∙ header_get-none k new d.0 in
      insert_all-get n new (insert_header (k, v) hs) d.1 ∙ rw (later, e) refl
  | inr e ↦ insert_all-get n new (insert_header (k, v) hs) d.1 ∙ rw (e, get-remove n k hs e) refl
]

strict_headers-IsDistinct : IsDistinct strict_headers
unfolding equal
strict_headers-IsDistinct = (
  (refl, (refl, (refl, (refl, (refl, (refl, tt)))))),
  (
    (refl, (refl, (refl, (refl, (refl, tt))))),
    (
      (refl, (refl, (refl, (refl, tt)))),
      ((refl, (refl, (refl, tt))), ((refl, (refl, tt)), ((refl, tt), (tt, tt)))),
    ),
  ),
)

-- The headers against scripts, framing, sniffing, referrers and caches.
pub record IsStrict (hs : Headers) : Type 0 where
  pub no_script :
      header_get (codes "content-security-policy") hs
      ≡ some (
          codes
            "default-src 'none'; style-src 'self' 'unsafe-inline'; img-src 'self' data:; script-src 'none'; frame-ancestors 'none';")
  pub same_resource :
      header_get (codes "cross-origin-resource-policy") hs ≡ some (codes "same-origin")
  pub same_opener : header_get (codes "cross-origin-opener-policy") hs ≡ some (codes "same-origin")
  pub no_frame : header_get (codes "x-frame-options") hs ≡ some (codes "DENY")
  pub no_sniff : header_get (codes "x-content-type-options") hs ≡ some (codes "nosniff")
  pub no_referrer : header_get (codes "referrer-policy") hs ≡ some (codes "no-referrer")
  pub no_cache : header_get (codes "cache-control") hs ≡ some (codes "no-store, max-age=0")

security_headers-get :
    (n : Text) (hs : Headers)
    → header_get n (security_headers hs) ≡ or_behind (header_get n strict_headers) (header_get n hs)
unfolding security_headers
security_headers-get n hs = insert_all-get n strict_headers hs strict_headers-IsDistinct

security_headers-IsStrict : (hs : Headers) → IsStrict (security_headers hs)
unfolding header_get equal
security_headers-IsStrict hs = record {
  no_script = security_headers-get (codes "content-security-policy") hs;
  same_resource = security_headers-get (codes "cross-origin-resource-policy") hs;
  same_opener = security_headers-get (codes "cross-origin-opener-policy") hs;
  no_frame = security_headers-get (codes "x-frame-options") hs;
  no_sniff = security_headers-get (codes "x-content-type-options") hs;
  no_referrer = security_headers-get (codes "referrer-policy") hs;
  no_cache = security_headers-get (codes "cache-control") hs;
}

-- Every answer of the handler of reports, the page and the refusals alike, carries the policy against
-- scripts, the two same-origin policies, and the headers against framing, sniffing, referrers and
-- caches, whatever headers axum gave it; a header of no such name is as axum gave it.
pub answer-IsStrict :
    (headers_of : Result StatusCode Text → Headers) (page fresh tok current n : Text)
    → IsStrict (answer headers_of page fresh tok current).0.1
      × (header_get n (answer headers_of page fresh tok current).0.1
          ≡ or_behind
              (header_get n strict_headers)
              (header_get n (headers_of (answer headers_of page fresh tok current).0.0)))
unfolding answer
answer-IsStrict headers_of page fresh tok current n =
    (security_headers-IsStrict _, security_headers-get n _)
