-- ===== src/Portal/Runs.antt =====
-- Requests of the portal at concrete inputs.
use seck.Base.{
  Option-cases, inl, inr, zero, suc, ℕ, ◌+◌, ◌≤◌, ◌<◌, ◌≡◌, ◌≢◌, ◌↔◌, refl, arith, true, none, some,
  List, [], ◌∷◌, length, Text,
}
use seck.Base.Outcome.{ok}
use seck.Base.Strings.{codes}
use seck.Orchestrator.Descriptors.{opened_file, Table, inherited, set, kept, duplicated}
use seck.Orchestrator.Posix.{posix, search_free, fresh}
use seck.Portal.{requests, Service, of_file, open_path, start_analyze}
use seck.Portal.Laws.{
  opened, count_open, requests-bounded, count_open, requests-bounded, start_analyze-hands_over_iff,
}

-- Every path is a file, and `seck` is where it is by default.
abbrev service : Service
service = record {
  kernel = posix;
  resolves = λ p. some (length p);
  path_dirs = none;
  is_file = λ p. true;
}

search_free-below : (t : Table) (fuel i n : ℕ) → search_free t fuel i ≡ some n → n < i + fuel
unfolding search_free
search_free-below t zero i n h = cc
search_free-below t (suc fuel) i n h = elim (Option-cases (t i)) [
  | inl e ↦ let h' = rw (e, search_free) at h in omega (arith, some-is h')
  | inr (o, e) ↦ omega (arith, search_free-below t fuel (suc i) n (rw (e, search_free) at h))
]
  where
    some-is : {a b : ℕ} → some a ≡ some b → a ≡ b
    some-is p = cc

-- The first and the third are opened; nothing is at the empty path.
abbrev three_paths : List Text
three_paths = codes "a" ∷ [] ∷ codes "bc" ∷ []

abbrev picky : Service
picky = record service { resolves = λ p. elim p [ [] ↦ none | c ∷ p ↦ some (length p) ] }

two_opened : opened picky three_paths fresh ≡ 2
unfolding opened search_free
two_opened = refl

requests-bounded_example :
    (count_open 16 (requests picky three_paths fresh)
      ≡ opened picky three_paths fresh + count_open 16 fresh)
    × (opened picky three_paths fresh + count_open 16 fresh ≤ 16)
requests-bounded_example =
    requests-bounded picky 16 three_paths fresh (λ u n h. search_free-below u 16 0 n h)

-- The service has no descriptor beside the standard ones: the file gets the number 3.
abbrev got : ℕ × ℕ × Table
got = (3, 1, set fresh 3 (some (of_file 1)))

abbrev child : Table
child n = kept (duplicated 3 3 (of_file 1) got.2 n)

got_opened : open_path service (codes "a") fresh ≡ ok got
unfolding open_path search_free
got_opened = refl

child_started : start_analyze service 3 got.2 ≡ ok child
unfolding start_analyze
child_started = refl

start_analyze-hands_over_iff_example : (child 3 ≡ some (inherited (opened_file 1))) ↔ (got.0 ≢ 3)
start_analyze-hands_over_iff_example =
    start_analyze-hands_over_iff service (codes "a") fresh child got got_opened child_started
