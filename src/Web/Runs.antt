-- ===== src/Web/Runs.antt =====
-- The theorems of `Web` at concrete inputs.
use seck.Base.{◌≡◌, ◌≤◌, refl, Option, none, some, List, [], ◌∷◌, if◌then◌else◌, equal, Text}
use seck.Base.Strings.{codes}
use seck.Web.Token.{Request, served, served_once}
use seck.Base.Outcome.{Result}
use seck.Web.Token.{StatusCode}
use seck.Web.Headers.{
  IsStrict, Headers, header_get, strict_headers, or_behind, answer, answer-IsStrict,
}
use seck.Web.Bind.{SocketAddr, v4}

-- The tokens are 0, 1, 2 and 3; 0 is asked for twice.
abbrev requests : List Request
requests =
    record { tok = 0 ∷ []; fresh = 1 ∷ [] }
    ∷ record { tok = 0 ∷ []; fresh = 2 ∷ [] }
    ∷ record { tok = 1 ∷ []; fresh = 3 ∷ [] }
    ∷ []

served_once_example : served (codes "page") (0 ∷ []) (0 ∷ []) requests ≤ 1
served_once_example =
    served_once (codes "page") (0 ∷ []) (0 ∷ []) requests
      (λ e. cc, (λ e. cc, (λ e. cc, tt)), (λ e. cc, (λ e. cc, tt), (λ e. cc, tt, tt)))

abbrev parse_addr : Text → Option SocketAddr
parse_addr s =
    if equal s (codes "127.0.0.1:80") then some (record { ip = v4 127 0 0 1; port = 80 }) else none

-- An answer that could be cached.
abbrev cached : Result StatusCode Text → Headers
cached r = (codes "cache-control", codes "public") ∷ []

not_cached :
    header_get
      (codes "cache-control")
      (answer cached (codes "page") (codes "b") (codes "a") (codes "a")).0.1
    ≡ some (codes "no-store, max-age=0")
unfolding answer header_get equal
not_cached = refl

answer-IsStrict_example :
    IsStrict (answer cached (codes "page") (codes "b") (codes "a") (codes "a")).0.1
    × (header_get
          (codes "date")
          (answer cached (codes "page") (codes "b") (codes "a") (codes "a")).0.1
        ≡ or_behind (header_get (codes "date") strict_headers) (
            header_get
              (codes "date")
              (cached (answer cached (codes "page") (codes "b") (codes "a") (codes "a")).0.0)))
answer-IsStrict_example =
    answer-IsStrict cached (codes "page") (codes "b") (codes "a") (codes "a") (codes "date")
