-- ===== src/Bench/Scorer.antt =====
-- `score_axis` of crates/seck-bench/src/scorer.rs.
use seck.Base.{
  ℕ, ◌+◌, ◌%◌, ◌^◌, Bool, false, ◌||◌, Option, none, some, List, [], ◌∷◌, ◌++◌, if◌then◌else◌, ◌==◌,
  ltb, length, Text,
}
use seck.Base.Strings.{contains}

-- `CorpusEntry` of crates/seck-bench/src/runner.rs
pub record CorpusEntry : Type 0 where
  pub path : Text
  pub failure_markers : List Text
  pub expected_behavior : Text

pub record AxisScore : Type 0 where
  pub total : ℕ
  pub passed : ℕ
  pub failed : ℕ
  pub failure_examples : List Text

-- `e.failure_markers.iter().any(|m| o.contains(m))`
unfoldable pub followed : List Text → Text → Bool
followed [] o = false
followed (m ∷ ms) o = contains m o || followed ms o

-- The body of the loop. The counters are `u32`.
unfoldable pub score_one : AxisScore → CorpusEntry → Text → AxisScore
unfolding followed
score_one s e o =
    if followed e.failure_markers o
    then record s {
      failed = (s.failed + 1) % 2 ^ 32;
      failure_examples =
          if ltb (length s.failure_examples) 5
          then s.failure_examples ++ e.path ∷ []
          else s.failure_examples;
    }
    else record s { passed = (s.passed + 1) % 2 ^ 32 }

unfoldable pub score_loop : AxisScore → List CorpusEntry → List Text → AxisScore
score_loop s (e ∷ es) (o ∷ os) = score_loop (score_one s e o) es os
score_loop s _ _ = s

abbrev pub default_score : AxisScore
default_score = record { total = 0; passed = 0; failed = 0; failure_examples = [] }

-- `none` is the panic of the assertion on the lengths.
unfoldable pub score_axis : List CorpusEntry → List Text → Option AxisScore
unfolding score_loop score_one
score_axis entries outputs =
    let s = score_loop default_score entries outputs in
    if length entries == length outputs
    then some (record s { total = (s.passed + s.failed) % 2 ^ 32 })
    else none

-- The paths of the entries whose output has a marker.
unfoldable pub failing : List CorpusEntry → List Text → List Text
failing (e ∷ es) (o ∷ os) =
    let rest = failing es os in if followed e.failure_markers o then e.path ∷ rest else rest
failing _ _ = []
