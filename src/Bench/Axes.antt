-- ===== src/Bench/Axes.antt =====
-- Which files the suite holds, axis by axis.
use seck.Base.{
  ◌≡◌, refl, sym, ap, ◌∙◌, Bool-cases, inl, inr, Option, none, some, List, [], ◌∷◌, ◌++◌,
  append_assoc, append-nil, if◌then◌else◌, equal, Bytes, Text,
}
use seck.Base.Strings.{codes}
use seck.Bench.Scorer.{CorpusEntry}
use seck.Bench.Runner.{
  Suite, DirEntry, Corpus, corpus_entry, is_sample, push_entry, load_dir, load_kinds, load_suite,
  samples, samples_in, dir_of,
}

-- An axis of the suite: how it is read, and how entries are put behind it.
record Axis (c : Corpus) (kind : Text) : Type 0 where
  add : List CorpusEntry → Suite → Suite
  add-nil : (s : Suite) → add [] s ≡ s
  add-append : (a b : List CorpusEntry) (s : Suite) → add b (add a s) ≡ add (a ++ b) s
  pushes : (e : CorpusEntry) (s : Suite) → push_entry c kind e s ≡ add (e ∷ []) s

module _ (c : Corpus) where
  load_dir-samples :
      (kind : Text) (a : Axis c kind) (es : List (Option DirEntry)) (s : Suite)
      → load_dir c kind es s ≡ a.add (samples c es) s
  unfolding load_dir samples
  load_dir-samples kind a [] s = sym (a.add-nil s)
  load_dir-samples kind a (none ∷ es) s = load_dir-samples kind a es s
  load_dir-samples kind a (some e ∷ es) s = elim (Bool-cases (is_sample c e)) [
    | inl sample ↦
        rw (sample, samples)
          (load_dir-samples kind a es _
            ∙ ap (a.add (samples c es)) (a.pushes (corpus_entry c e.path) s)
            ∙ a.add-append (corpus_entry c e.path ∷ []) (samples c es) s)
    | inr other ↦ rw (other, samples) (load_dir-samples kind a es s)
  ]

  load_kind-samples :
      (corpus_dir : Bytes) (kind : Text) (a : Axis c kind) (s : Suite)
      → (if c.exists (dir_of c corpus_dir kind)
          then load_dir c kind (c.entries_below (dir_of c corpus_dir kind)) s
          else s)
        ≡ a.add (samples_in c corpus_dir kind) s
  load_kind-samples corpus_dir kind a s = elim (Bool-cases (c.exists (dir_of c corpus_dir kind))) [
    | inl there ↦ rw there (load_dir-samples kind a _ s)
    | inr missing ↦ rw missing (sym (a.add-nil s))
  ]

  injection_axis : Axis c (codes "injection")
  unfolding push_entry equal
  injection_axis = record {
    add = λ a s. record s { injection = s.injection ++ a };
    add-nil = λ s. rw (append-nil s.injection) refl;
    add-append = λ a b s. rw (append_assoc s.injection a b) refl;
    pushes = λ e s. refl;
  }

  malicious_axis : Axis c (codes "malicious-files")
  unfolding push_entry equal
  malicious_axis = record {
    add = λ a s. record s { malicious = s.malicious ++ a };
    add-nil = λ s. rw (append-nil s.malicious) refl;
    add-append = λ a b s. rw (append_assoc s.malicious a b) refl;
    pushes = λ e s. refl;
  }

  canary_axis : Axis c (codes "canaries")
  unfolding push_entry equal
  canary_axis = record {
    add = λ a s. record s { canary = s.canary ++ a };
    add-nil = λ s. rw (append-nil s.canary) refl;
    add-append = λ a b s. rw (append_assoc s.canary a b) refl;
    pushes = λ e s. refl;
  }

  quality_axis : Axis c (codes "quality")
  unfolding push_entry equal
  quality_axis = record {
    add = λ a s. record s { quality = s.quality ++ a };
    add-nil = λ s. rw (append-nil s.quality) refl;
    add-append = λ a b s. rw (append_assoc s.quality a b) refl;
    pushes = λ e s. refl;
  }

  -- The suite holds, on each axis, one entry for every file below the directory of that axis that is no
  -- metadata, in the order of the walk, and none if the directory is missing.
  pub load_suite-axes :
      (corpus_dir : Bytes)
      → load_suite c corpus_dir ≡ record {
        injection = samples_in c corpus_dir (codes "injection");
        malicious = samples_in c corpus_dir (codes "malicious-files");
        canary = samples_in c corpus_dir (codes "canaries");
        quality = samples_in c corpus_dir (codes "quality");
      }
  unfolding load_suite injection_axis malicious_axis canary_axis quality_axis
  load_suite-axes d =
      ap (λ s. load_kinds c d (codes "malicious-files" ∷ codes "canaries" ∷ codes "quality" ∷ []) s)
        (load_kind-samples d (codes "injection") injection_axis _)
      ∙ ap (λ s. load_kinds c d (codes "canaries" ∷ codes "quality" ∷ []) s)
          (load_kind-samples d (codes "malicious-files") malicious_axis _)
      ∙ ap (λ s. load_kinds c d (codes "quality" ∷ []) s)
          (load_kind-samples d (codes "canaries") canary_axis _)
      ∙ load_kind-samples d (codes "quality") quality_axis _
