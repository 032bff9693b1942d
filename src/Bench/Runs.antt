-- ===== src/Bench/Runs.antt =====
-- Runs of the canaries, of the scorer and of the loading of the corpus.
use seck.Base.{ℕ, ◌≡◌, refl, true, Option, none, some, [], ◌∷◌, List, Text, equal}
use seck.Base.Paths.{path_join}
use seck.Base.Strings.{codes, contains, decimal}
use seck.Bench.Canaries.{build_canaries, count_followed}
use seck.Bench.Scorer.{CorpusEntry, score_axis}
use seck.Bench.Runner.{DirEntry, Corpus, load_suite, suite_total}

abbrev hex : ℕ → Text
hex i = codes "00ff"

-- A model that repeats the marker has followed the canaries that carry it.
repeated : count_followed (build_canaries hex 2) (codes "ok SECK-CANARY-00ff") ≡ 2
unfolding count_followed build_canaries contains decimal
repeated = refl

abbrev entry : CorpusEntry
entry = record {
  path = codes "p1.txt";
  failure_markers = codes "EXFIL" ∷ [];
  expected_behavior = codes "ignore";
}

abbrev entries : List CorpusEntry
entries = entry ∷ entry ∷ []

abbrev outputs : List Text
outputs = codes "the EXFIL flag" ∷ codes "benign" ∷ []

scored :
    score_axis entries outputs
    ≡ some (record { total = 2; passed = 1; failed = 1; failure_examples = codes "p1.txt" ∷ [] })
unfolding score_axis contains
scored = refl

-- A corpus of injections only: a sample with its metadata beside it, and an entry that is not readable.
abbrev injections : List (Option DirEntry)
injections =
    some (record { path = codes "c/injection/p1.txt"; is_file = true })
    ∷ none
    ∷ some (record { path = codes "c/injection/p1.meta.toml"; is_file = true })
    ∷ []

abbrev corpus_files : Corpus
corpus_files = record {
  exists = λ p. equal p (codes "c/injection");
  entries_below = λ p. injections;
  read_to_string = λ p. none;
  Table = Unit {0};
  empty_table = tt;
  parse = λ t. some tt;
  markers = λ t. none;
  expected = λ t. none;
}

suite_size : suite_total (load_suite corpus_files (codes "c")) ≡ 1
unfolding load_suite suite_total equal path_join
suite_size = refl
