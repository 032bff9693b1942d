-- ===== src/Bench/Tally.antt =====
-- What the scorer counts.
use seck.Base.{
  ℕ, zero, suc, ◌+◌, ◌%◌, ◌^◌, ◌<◌, ◌≤◌, ◌≡◌, refl, sym, ap, ◌∙◌, arith, true, false, Bool-cases,
  some, inl, inr, List, [], ◌∷◌, ◌++◌, append_assoc, append-nil, if◌then◌else◌, ltb, length,
  length-append, take, take-append, Text,
}
use seck.Bench.Scorer.{
  CorpusEntry, AxisScore, followed, score_one, score_loop, default_score, score_axis, failing,
}

take_full {ℓ} : {A : Type ℓ} (n : ℕ) (xs ys : List A) → length xs ≡ n → take n (xs ++ ys) ≡ xs
take_full n xs ys e = rw (sym e) (take-append xs ys)

take_short {ℓ} : {A : Type ℓ} (n : ℕ) (xs : List A) → length xs ≤ n → take n xs ≡ xs
take_short zero [] h = refl
take_short (suc n) [] h = refl
take_short zero (x ∷ xs) h = absurd (omega arith)
take_short (suc n) (x ∷ xs) h = ap (◌∷◌ x) (take_short n xs (omega arith))

record Tallied (s t : AxisScore) (es : List CorpusEntry) (os : List Text) : Type 0 where
  failed_is : t.failed ≡ s.failed + length (failing es os)
  sum_is : t.passed + t.failed ≡ s.passed + s.failed + length es
  examples_are : t.failure_examples ≡ take 5 (s.failure_examples ++ failing es os)

-- No counter overflows, and there are five examples at most.
record Small (s : AxisScore) (es : List CorpusEntry) : Type 0 where
  no_overflow : s.passed + s.failed + length es < 2 ^ 32
  few : length s.failure_examples ≤ 5

-- The examples after one more failure.
abbrev with_example : List Text → Text → List Text
with_example ex p = if ltb (length ex) 5 then ex ++ p ∷ [] else ex

with_example-few : (ex : List Text) (p : Text) → length ex ≤ 5 → length (with_example ex p) ≤ 5
with_example-few ex p h = ground (arith, length-append ex (p ∷ []))

with_example-take :
    (ex fs : List Text) (p : Text)
    → length ex ≤ 5
    → take 5 (with_example ex p ++ fs) ≡ take 5 (ex ++ p ∷ fs)
with_example-take ex fs p h = elim (Bool-cases (ltb (length ex) 5)) [
  | inl short ↦ rw short (ap (take 5) (append_assoc ex (p ∷ []) fs))
  | inr full ↦
      rw full (take_full 5 ex fs (ground arith) ∙ sym (take_full 5 ex (p ∷ fs) (ground arith)))
]

abbrev after_failure : AxisScore → Text → AxisScore
after_failure s p = record s {
  failed = (s.failed + 1) % 2 ^ 32;
  failure_examples = with_example s.failure_examples p;
}

abbrev after_pass : AxisScore → AxisScore
after_pass s = record s { passed = (s.passed + 1) % 2 ^ 32 }

module _ (s : AxisScore) (x : CorpusEntry) (es : List CorpusEntry) (o : Text) (os : List Text) where
  score_one_failed : followed x.failure_markers o ≡ true → score_one s x o ≡ after_failure s x.path
  unfolding score_one
  score_one_failed h = rw h refl

  score_one_passed : followed x.failure_markers o ≡ false → score_one s x o ≡ after_pass s
  unfolding score_one
  score_one_passed h = rw h refl

  failing_failed :
      followed x.failure_markers o ≡ true → failing (x ∷ es) (o ∷ os) ≡ x.path ∷ failing es os
  unfolding failing
  failing_failed h = rw h refl

  failing_passed : followed x.failure_markers o ≡ false → failing (x ∷ es) (o ∷ os) ≡ failing es os
  unfolding failing
  failing_passed h = rw h refl

  failed-Tallied :
      followed x.failure_markers o ≡ true
      → Small s (x ∷ es)
      → (t : AxisScore) → Tallied (after_failure s x.path) t es os
      → Tallied s t (x ∷ es) (o ∷ os)
  failed-Tallied h m t ih = record {
    failed_is = rw (failing_failed h) (omega (arith, ih.failed_is, m.no_overflow));
    sum_is = omega (arith, ih.sum_is, m.no_overflow);
    examples_are =
        rw (failing_failed h)
          (ih.examples_are ∙ with_example-take s.failure_examples (failing es os) x.path m.few);
  }

  passed-Tallied :
      followed x.failure_markers o ≡ false
      → Small s (x ∷ es)
      → (t : AxisScore) → Tallied (after_pass s) t es os
      → Tallied s t (x ∷ es) (o ∷ os)
  passed-Tallied h m t ih = record {
    failed_is = rw (failing_passed h) ih.failed_is;
    sum_is = omega (arith, ih.sum_is, m.no_overflow);
    examples_are = rw (failing_passed h) ih.examples_are;
  }

score_loop-Tallied :
    (s : AxisScore) (es : List CorpusEntry) (os : List Text)
    → length es ≡ length os
    → Small s es
    → Tallied s (score_loop s es os) es os
unfolding score_loop failing
score_loop-Tallied s [] os e m = record {
  failed_is = omega arith;
  sum_is = omega arith;
  examples_are = rw append-nil (sym (take_short 5 s.failure_examples m.few));
}
score_loop-Tallied s (x ∷ es) [] e m = absurd (omega arith)
score_loop-Tallied s (x ∷ es) (o ∷ os) e m = elim (Bool-cases (followed x.failure_markers o)) [
  | inl failed ↦ failed-Tallied s x es o os failed m _ (
      rw (score_one_failed s x es o os failed) (
        score_loop-Tallied (after_failure s x.path) es os (omega arith) (record {
          no_overflow = omega (arith, m.no_overflow);
          few = with_example-few s.failure_examples x.path m.few;
        })))
  | inr passed ↦ passed-Tallied s x es o os passed m _ (
      rw (score_one_passed s x es o os passed) (
        score_loop-Tallied (after_pass s) es os (omega arith)
          (record { no_overflow = omega (arith, m.no_overflow); few = m.few })))
]

-- The score of a corpus and its outputs.
pub record IsScore (es : List CorpusEntry) (os : List Text) (s : AxisScore) : Type 0 where
  pub total_is : s.total ≡ length es
  pub failed_is : s.failed ≡ length (failing es os)
  pub sum_is : s.passed + s.failed ≡ length es
  pub examples_are : s.failure_examples ≡ take 5 (failing es os)

-- The scorer counts every entry as passed or as failed, failed exactly if a marker is in its output,
-- and keeps the first five failing paths, if there is an output for each entry and there are fewer
-- than 2 ^ 32 of them.
pub score_axis-IsScore :
    (es : List CorpusEntry) (os : List Text)
    → length es ≡ length os
    → length es < 2 ^ 32
    → (s : AxisScore) × (score_axis es os ≡ some s) × IsScore es os s
unfolding score_axis
score_axis-IsScore es os e few =
    let t = score_loop default_score es os in
    let l =
      score_loop-Tallied default_score es os e
        (record { no_overflow = omega arith; few = omega arith }) in
    (
      record t { total = (t.passed + t.failed) % 2 ^ 32 },
      ground (arith, e),
      record {
        total_is = omega (arith, l.sum_is);
        failed_is = l.failed_is ∙ (omega arith);
        sum_is = l.sum_is ∙ (omega arith);
        examples_are = l.examples_are;
      },
    )
