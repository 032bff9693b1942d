-- ===== src/Resolve/Macos.antt =====
-- The check of the canonical path on macOS refuses nothing.
use seck.Base.{
  equal, ◌≡◌, refl, Bool, true, false, some, Option-cases, inl, inr, List, [], ◌∷◌, ◌++◌, ℕ,
  equal_iff, Bytes,
}
use seck.Base.Outcome.{ok}
use seck.Base.Strings.{codes}
use seck.Resolve.{
  System, has_nul, parent, same_path, compare_parents, check_realpath, macos_open_target,
}

-- `dir/name`
abbrev pub within_dir : List Bytes → Bytes → List Bytes
within_dir dir name = dir ++ name ∷ []

-- A name that is an entry of its directory, and no way to it or out of it.
pub record IsEntry (name : Bytes) : Type 0 where
  pub not_empty : equal name [] ≡ false
  pub not_here : equal name (codes ".") ≡ false
  pub not_up : equal name (codes "..") ≡ false

-- While nothing changes: `is_link` tells the symbolic links by their canonical place; a path that
-- O_NOFOLLOW opens does not end in one, and then the canonical path of `dir/name` is
-- an entry of the canonical path of `dir`, as realpath(3) goes through a path name by name: the entry
-- has the name that the file system keeps, which may differ in case.
pub record IsFileSystem (s : System) (is_link : List Bytes → Bool) : Type 0 where
  pub nofollow :
      (dir cdir : List Bytes) (name : Bytes) (fd : ℕ)
      → IsEntry name
      → s.open_at (within_dir dir name) ≡ ok fd
      → s.canonicalize dir ≡ some cdir
      → is_link (within_dir cdir name) ≡ false
  pub resolves :
      (dir cdir canon : List Bytes) (name : Bytes)
      → IsEntry name
      → s.canonicalize dir ≡ some cdir
      → is_link (within_dir cdir name) ≡ false
      → s.canonicalize (within_dir dir name) ≡ some canon
      → (kept : Bytes) × (canon ≡ within_dir cdir kept)

parent_within_dir : (dir : List Bytes) (name : Bytes) → parent (within_dir dir name) ≡ some dir
unfolding parent
parent_within_dir [] name = refl
parent_within_dir (n ∷ []) name = refl
parent_within_dir (n ∷ m ∷ dir) name = rw (parent_within_dir (m ∷ dir) name) refl

same_path_refl : (p : List Bytes) → same_path p p ≡ true
unfolding same_path
same_path_refl [] = refl
same_path_refl (n ∷ p) = rw ((equal_iff n n).1 refl, same_path_refl p) refl

module _ (s : System) (is_link : List Bytes → Bool) (h : IsFileSystem s is_link) (dir : List Bytes)
    (name : Bytes) (fd : ℕ) where
  check_realpath_passes :
      IsEntry name
      → s.open_at (within_dir dir name) ≡ ok fd
      → check_realpath s (within_dir dir name) fd ≡ ok fd
  unfolding check_realpath compare_parents
  check_realpath_passes entry opened = elim (Option-cases (s.canonicalize (within_dir dir name))) [
    | inl e ↦ rw (e, check_realpath) refl
    | inr (canon, e) ↦ elim (Option-cases (s.canonicalize dir)) [
      | inl e' ↦ rw (e, check_realpath, parent_within_dir dir name, e') refl
      | inr (cdir, e') ↦
          let (kept, place) =
            h.resolves dir cdir canon name entry e' (h.nofollow dir cdir name fd entry opened e')
              e in
          rw
            (
              e,
              check_realpath,
              parent_within_dir dir name,
              e',
              place,
              parent_within_dir cdir kept,
              same_path_refl cdir,
            )
            refl
    ]
  ]

  -- While nothing changes, the macOS resolver opens whatever O_NOFOLLOW opens, if the path ends in an entry
  -- of its directory, not in a dot or two: the canonical parent of the path is the parent of its
  -- canonical form, wherever symbolic links stand in between.
  pub macos_open_target_follows :
      IsEntry name
      → has_nul (within_dir dir name) ≡ false
      → s.open_at (within_dir dir name) ≡ ok fd
      → macos_open_target s (within_dir dir name) ≡ ok fd
  unfolding macos_open_target
  macos_open_target_follows entry n opened = rw (n, opened) (check_realpath_passes entry opened)
