-- ===== src/Models/Laws.antt =====
-- The choice of a model, and what a download leaves on the disk.
use Prim.Native.Nat.{compare, Ordering}
use seck.Base.{
  ℕ, ◌≤◌, ◌<◌, ◌≡◌, ◌⊎◌, refl, sym, ap, arith, Bool, true, false, Bool-cases, Option-cases, inl,
  inr, Option, none, some, List, [], ◌∷◌, leb, leb→le, equal_refl, All, Bytes, Text,
}
use seck.Base.Outcome.{Result, ok, err, Result-cases}
use seck.Models.Download.{
  DlError, Files, put, Network, Disk, fetch, download_verified, verify_file, IsVerified,
  fetch-IsVerified,
}
use seck.Models.Command.{pulled, pull, finished, pull_entry, find_named, run}
use seck.Models.Recommend.{Entry, Manifest, larger, max_of, recommend_for_ram, store_path}

module _ {F : Type 0} (partial_cmp : F → F → Option Ordering) (key : F → ℕ)
    (ordered : (a b : F) → partial_cmp a b ≡ some (compare (key a) (key b))) (ram : ℕ) where
  abbrev pub size : Entry F → ℕ
  size e = key e.params_billion

  abbrev pub In : Entry F → List (Entry F) → Type 0
  In e [] = ⊥
  In e (x ∷ xs) = (e ≡ x) ⊎ In e xs

  abbrev pub FitsRam : Entry F → Type 0
  FitsRam e = e.recommended_min_ram_gb ≤ ram

  larger-cases :
      (a b : Entry F)
      → ((larger partial_cmp a b ≡ a) × (size b ≤ size a))
        ⊎ ((larger partial_cmp a b ≡ b) × (size a ≤ size b))
  larger-cases a b = rw (ordered a.params_billion b.params_billion, larger) (ground arith)

  -- Not smaller than the best so far and than any that fits.
  record Beats (best : Option (Entry F)) (es : List (Entry F)) (r : Entry F) : Type 0 where
    from : (best ≡ some r) ⊎ (In r es × FitsRam r)
    over_best : (b : Entry F) → best ≡ some b → size b ≤ size r
    over_rest : All (λ x. FitsRam x → size x ≤ size r) es

  unfit-Beats :
      (best : Option (Entry F)) (e : Entry F) (es : List (Entry F)) (r : Entry F)
      → leb e.recommended_min_ram_gb ram ≡ false
      → Beats best es r
      → Beats best (e ∷ es) r
  unfit-Beats best e es r unfit b = record {
    from = elim b.from [ inl x ↦ inl x | inr (x, y) ↦ inr (inr x, y) ];
    over_best = b.over_best;
    over_rest = (λ fits. absurd (ground (arith, unfit, fits)), b.over_rest);
  }

  first-Beats :
      (e : Entry F) (es : List (Entry F)) (r : Entry F)
      → FitsRam e
      → Beats (some e) es r
      → Beats none (e ∷ es) r
  first-Beats e es r fits b = record {
    from = elim b.from [
      | inl x ↦ let e' : e ≡ r = cc in inr (inl (sym e'), rw (sym e') fits)
      | inr (x, y) ↦ inr (inr x, y)
    ];
    over_best = λ b' x. absurd (cc);
    over_rest = (λ fits'. b.over_best e refl, b.over_rest);
  }

  next-Beats :
      (c e : Entry F) (es : List (Entry F)) (r : Entry F)
      → FitsRam e
      → Beats (some (larger partial_cmp c e)) es r
      → Beats (some c) (e ∷ es) r
  next-Beats c e es r fits b = elim (larger-cases c e) [
    | inl (is_c, le) ↦
        let b' = rw is_c at b in
        record {
          from = elim b'.from [ inl x ↦ inl x | inr (x, y) ↦ inr (inr x, y) ];
          over_best = b'.over_best;
          over_rest = (λ fits'. omega (arith, le, b'.over_best c refl), b'.over_rest);
        }
    | inr (is_e, le) ↦
        let b' = first-Beats e es r fits (rw is_e at b) in
        record {
          from = inr (elim b'.from [ inl x ↦ absurd (cc) | inr y ↦ y ]);
          over_best = λ c' x.
              let same : c ≡ c' = cc in rw (sym same) (omega (arith, le, b'.over_rest.0 fits));
          over_rest = b'.over_rest;
        }
  ]

  max_of-Beats :
      (best : Option (Entry F)) (es : List (Entry F)) (r : Entry F)
      → max_of partial_cmp ram best es ≡ some r
      → Beats best es r
  unfolding max_of
  max_of-Beats best [] r h = record {
    from = inl h;
    over_best = λ b e. let same : b ≡ r = cc in rw same (omega arith);
    over_rest = tt;
  }
  max_of-Beats none (e ∷ es) r h = elim (Bool-cases (leb e.recommended_min_ram_gb ram)) [
    | inr unfit ↦ unfit-Beats none e es r unfit (max_of-Beats none es r (rw unfit at h))
    | inl fit ↦ first-Beats e es r (leb→le _ _ fit) (max_of-Beats (some e) es r (rw fit at h))
  ]
  max_of-Beats (some c) (e ∷ es) r h = elim (Bool-cases (leb e.recommended_min_ram_gb ram)) [
    | inr unfit ↦ unfit-Beats (some c) e es r unfit (max_of-Beats (some c) es r (rw unfit at h))
    | inl fit ↦
        next-Beats c e es r (leb→le _ _ fit)
          (max_of-Beats (some (larger partial_cmp c e)) es r (rw fit at h))
  ]

  max_of-none :
      (best : Option (Entry F)) (es : List (Entry F))
      → max_of partial_cmp ram best es ≡ none
      → (best ≡ none) × All (λ (x : Entry F). ram < x.recommended_min_ram_gb) es
  unfolding max_of
  max_of-none best [] h = (h, tt)
  max_of-none none (e ∷ es) h = elim (Bool-cases (leb e.recommended_min_ram_gb ram)) [
    | inr unfit ↦ (refl, (ground arith, (max_of-none none es (rw unfit at h)).1))
    | inl fit ↦ let (full, x) = max_of-none (some e) es (rw fit at h) in absurd (cc)
  ]
  max_of-none (some c) (e ∷ es) h = elim (Bool-cases (leb e.recommended_min_ram_gb ram)) [
    | inr unfit ↦ let (full, x) = max_of-none (some c) es (rw unfit at h) in absurd (cc)
    | inl fit ↦
        let (full, x) = max_of-none (some (larger partial_cmp c e)) es (rw fit at h) in absurd (cc)
  ]

  -- The choice among the entries.
  abbrev pub IsChoice : List (Entry F) → Option (Entry F) → Type 0
  IsChoice es none = All (λ (x : Entry F). ram < x.recommended_min_ram_gb) es
  IsChoice es (some r) = In r es × FitsRam r × All (λ x. FitsRam x → size x ≤ size r) es

  choice_lem :
      (es : List (Entry F)) (o : Option (Entry F))
      → max_of partial_cmp ram none es ≡ o
      → IsChoice es o
  choice_lem es none h = (max_of-none none es h).1
  choice_lem es (some r) h =
      let b = max_of-Beats none es r h in
      let f : In r es × FitsRam r = elim b.from [ inl x ↦ absurd (cc) | inr y ↦ y ] in
      (f.0, f.1, b.over_rest)

  -- An entry that fits the memory, none of those that fit being larger, or nothing if none fits, if
  -- the sizes can be compared.
  pub recommend_for_ram-IsChoice :
      (m : Manifest F) → IsChoice m.entries (recommend_for_ram partial_cmp m ram)
  unfolding recommend_for_ram
  recommend_for_ram-IsChoice m = choice_lem m.entries _ refl

module _ (n : Network) (d : Disk) where
  -- The destination holds what was verified, or the files are as they were.
  abbrev pub IsOutcome : Text → Text → Bytes → Files → Result DlError (Unit {0}) × Files → Type 0
  IsOutcome u expected dest files (ok x, g) =
      (content : Bytes) × IsVerified n d u expected content × (g ≡ put dest content files)
  IsOutcome u expected dest files (err e, g) = g ≡ files

  -- The destination changes only if the host of the URL is allowed, the digest is no placeholder and
  -- the content has it; then it holds the content, and else every file is as it was.
  pub download_verified-IsOutcome :
      (u expected : Text) (dest : Bytes) (files : Files)
      → IsOutcome u expected dest files (download_verified n d u expected dest files)
  unfolding download_verified
  download_verified-IsOutcome u expected dest files = elim (Result-cases (fetch n d u expected)) [
    | inl (content, e) ↦ rw e (content, fetch-IsVerified n d u expected content e, refl)
    | inr (x, e) ↦ rw e refl
  ]

  verify_file-put :
      (u expected : Text) (dest content : Bytes) (files : Files)
      → IsVerified n d u expected content
      → verify_file n d (put dest content files) dest expected ≡ true
  unfolding verify_file
  verify_file-put u expected dest content files v =
      rw (equal_refl dest, verify_file) (rw v.digest_is (equal_refl _))

  module _ (F : Type 0) (partial_cmp : F → F → Option Ordering) (cache_root : Bytes) where
    finished-verify_file :
        (e e' : Entry F) (dest dest' : Bytes) (files g : Files)
        (r : Result DlError (Unit {0}) × Files)
        → IsOutcome e.gguf_url e.sha3_256 dest files r
        → finished F partial_cmp n d cache_root e dest r ≡ (ok (pulled e' dest'), g)
        → verify_file n d g dest' e'.sha3_256 ≡ true
    finished-verify_file e e' dest dest' files g (ok u, f) (content, v, is_put) h =
        let held = verify_file-put e.gguf_url e.sha3_256 dest content files v in
        let same : e ≡ e' = cc in cc (held, is_put, h, ap (λ (x : Entry F). x.sha3_256) same)
    finished-verify_file e e' dest dest' files g (err x, f) o h = absurd (cc)

    -- A model that was pulled passes the check of its digest, and it was not pulled under airgap.
    pub pull-verify_file :
        (manifest : Manifest F) (name : Text) (airgap : Bool) (files g : Files) (e : Entry F)
        (dest : Bytes)
        → run F partial_cmp n d cache_root manifest (pull name airgap) files
          ≡ (ok (pulled e dest), g)
        → (airgap ≡ false) × (verify_file n d g dest e.sha3_256 ≡ true)
    unfolding run pull_entry
    pull-verify_file manifest name true files g e dest h = absurd (cc)
    pull-verify_file manifest name false files g e dest h = (
      refl,
      elim (Option-cases (find_named F partial_cmp n d cache_root name manifest.entries)) [
        | inl missing ↦ let h' = rw missing at h in absurd (cc)
        | inr (found, is) ↦
            finished-verify_file found e (store_path cache_root found.sha3_256 found.gguf_url) dest
              files g _
              (download_verified-IsOutcome found.gguf_url found.sha3_256
                (store_path cache_root found.sha3_256 found.gguf_url) files)
              (rw is at h)
      ],
    )
