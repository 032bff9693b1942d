-- ===== src/Bench/Runner.antt =====
-- `load_suite` of crates/seck-bench/src/runner.rs. What WalkDir yields, the files and toml are
-- parameters.
use seck.Base.Paths.{path_join}
use seck.Base.{
  ℕ, ◌+◌, Bool, true, false, not, Option, none, some, List, [], ◌∷◌, ◌++◌, if◌then◌else◌, equal,
  length, Bytes, Text,
}
use seck.Base.Strings.{codes}
use seck.Infer.Ollama.{file_stem, file_extension, parent_and_name}
use seck.Base.Utf8.{to_string_lossy}
use seck.Bench.Scorer.{CorpusEntry}

pub record Suite : Type 0 where
  pub injection : List CorpusEntry
  pub malicious : List CorpusEntry
  pub canary : List CorpusEntry
  pub quality : List CorpusEntry

unfoldable pub suite_total : Suite → ℕ
suite_total s = length s.injection + length s.malicious + length s.canary + length s.quality

pub record DirEntry : Type 0 where
  pub path : Bytes
  pub is_file : Bool

-- An entry that could not be read is `none`. `parse` is `toml::from_str`; the two fields of the metadata
-- are looked up in its value, and markers that are no strings are dropped by `markers`.
pub record Corpus : Type 1 where
  pub exists : Bytes → Bool
  pub entries_below : Bytes → List (Option DirEntry)
  pub read_to_string : Bytes → Option Text
  pub Table : Type 0
  pub empty_table : Table
  pub parse : Text → Option Table
  pub markers : Table → Option (List Text)
  pub expected : Table → Option Text

abbrev pub or_else {ℓ} : {A : Type ℓ} → A → Option A → A
or_else d none = d
or_else d (some a) = a

module _ (c : Corpus) where
  -- `<stem>.meta.toml` beside the file
  unfoldable pub meta_path : Bytes → Bytes
  unfolding file_stem parent_and_name
  meta_path p =
      (parent_and_name p).0 ++ (to_string_lossy (or_else [] (file_stem p)) ++ codes ".meta.toml")

  unfoldable pub metadata_of : Bytes → List Text × Text
  metadata_of meta =
      let v = or_else c.empty_table (c.parse (or_else [] (c.read_to_string meta))) in
      (or_else [] (c.markers v), or_else (codes "ignore") (c.expected v))

  unfoldable pub corpus_entry : Bytes → CorpusEntry
  unfolding meta_path metadata_of
  corpus_entry p =
      let (failure_markers, expected_behavior) =
        if c.exists (meta_path p) then metadata_of (meta_path p) else ([], codes "ignore") in
      record { path = p; failure_markers = failure_markers; expected_behavior = expected_behavior }

  -- A file that is no metadata.
  unfoldable pub is_sample : DirEntry → Bool
  unfolding file_extension
  is_sample e =
      if not e.is_file
      then false
      else elim (file_extension e.path) [ none ↦ true | some x ↦ not (equal x (codes "toml")) ]

  unfoldable pub push_entry : Text → CorpusEntry → Suite → Suite
  push_entry kind ce s =
      if equal kind (codes "injection")
      then record s { injection = s.injection ++ ce ∷ [] }
      else if equal kind (codes "malicious-files")
      then record s { malicious = s.malicious ++ ce ∷ [] }
      else if equal kind (codes "canaries")
      then record s { canary = s.canary ++ ce ∷ [] }
      else if equal kind (codes "quality")
      then record s { quality = s.quality ++ ce ∷ [] }
      else s

  unfoldable pub load_dir : Text → List (Option DirEntry) → Suite → Suite
  unfolding push_entry corpus_entry is_sample
  load_dir kind [] s = s
  load_dir kind (none ∷ es) s = load_dir kind es s
  load_dir kind (some e ∷ es) s =
      load_dir kind es (if is_sample e then push_entry kind (corpus_entry e.path) s else s)

  abbrev pub dir_of : Bytes → Text → Bytes
  dir_of corpus_dir kind = path_join corpus_dir kind

  unfoldable pub load_kinds : Bytes → List Text → Suite → Suite
  unfolding load_dir
  load_kinds corpus_dir [] s = s
  load_kinds corpus_dir (kind ∷ kinds) s = load_kinds corpus_dir kinds (
      if c.exists (dir_of corpus_dir kind)
      then load_dir kind (c.entries_below (dir_of corpus_dir kind)) s
      else s)

  abbrev pub kinds : List Text
  kinds = codes "injection" ∷ codes "malicious-files" ∷ codes "canaries" ∷ codes "quality" ∷ []

  unfoldable pub load_suite : Bytes → Suite
  unfolding load_kinds
  load_suite corpus_dir =
      load_kinds corpus_dir kinds
        (record { injection = []; malicious = []; canary = []; quality = [] })

  -- The samples among the entries of a directory, in their order.
  unfoldable pub samples : List (Option DirEntry) → List CorpusEntry
  unfolding corpus_entry is_sample
  samples [] = []
  samples (none ∷ es) = samples es
  samples (some e ∷ es) =
      let rest = samples es in if is_sample e then corpus_entry e.path ∷ rest else rest

  abbrev pub samples_in : Bytes → Text → List CorpusEntry
  samples_in corpus_dir kind =
      if c.exists (dir_of corpus_dir kind)
      then samples (c.entries_below (dir_of corpus_dir kind))
      else []
