-- ===== src/Resolve.antt =====
-- How a walk opens a path without following symbolic links: `open_target` of
-- crates/seck-host-unsafe/src/linux.rs and of src/macos.rs. A path is the list of its names, from
-- the root; the file system is a parameter.
pub mod Macos
mod Runs
use seck.Base.{
  ℕ, Bool, true, false, ◌&&◌, ◌||◌, Option, none, some, List, [], ◌∷◌, if◌then◌else◌, ◌==◌, equal,
  Bytes,
}
use seck.Base.Outcome.{Result, ok, err}

pub data ResolveError : Type 0 where
  nul_byte : ResolveError
  symlink escape : List Bytes → ResolveError
  realpath_mismatch : List Bytes → List Bytes → ResolveError
  io : ℕ → ResolveError

-- `open` gives a descriptor or an errno: openat2 with no symlinks on Linux, O_NOFOLLOW on macOS.
pub record System : Type 0 where
  pub open_at : List Bytes → Result ℕ ℕ
  pub canonicalize : List Bytes → Option (List Bytes)

-- What `CString::new` refuses.
unfoldable pub name_has_nul : Bytes → Bool
name_has_nul [] = false
name_has_nul (c ∷ s) = c == 0 || name_has_nul s

unfoldable pub has_nul : List Bytes → Bool
unfolding name_has_nul
has_nul [] = false
has_nul (n ∷ ns) = name_has_nul n || has_nul ns

-- `Path::parent` of an absolute path
unfoldable pub parent : List Bytes → Option (List Bytes)
parent [] = none
parent (n ∷ []) = some []
parent (n ∷ m ∷ ns) = elim (parent (m ∷ ns)) [ none ↦ none | some d ↦ some (n ∷ d) ]

unfoldable pub same_path : List Bytes → List Bytes → Bool
same_path [] [] = true
same_path (n ∷ ns) (m ∷ ms) = equal n m && same_path ns ms
same_path _ _ = false

-- `path.parent().and_then(|p| canonicalize(p).ok())`
abbrev pub canonical_of : System → Option (List Bytes) → Option (List Bytes)
canonical_of s none = none
canonical_of s (some dir) = s.canonicalize dir

module _ (s : System) where
  unfoldable pub linux_error : List Bytes → ℕ → ResolveError
  linux_error path e = if e == 40 then symlink path else if e == 18 then escape path else io e

  unfoldable pub linux_open_target : List Bytes → Result ResolveError ℕ
  unfolding has_nul linux_error
  linux_open_target path =
      if has_nul path
      then err nul_byte
      else elim (s.open_at path) [ ok fd ↦ ok fd | err e ↦ err (linux_error path e) ]

  unfoldable pub compare_parents :
      ℕ → Option (List Bytes) → Option (List Bytes) → Result ResolveError ℕ
  unfolding same_path
  compare_parents fd (some want) (some got) =
      if same_path got want then ok fd else err (realpath_mismatch got want)
  compare_parents fd _ _ = ok fd

  unfoldable pub check_realpath : List Bytes → ℕ → Result ResolveError ℕ
  unfolding compare_parents parent
  check_realpath path fd = elim (s.canonicalize path) [
    | none ↦ ok fd
    | some canon ↦ compare_parents fd (canonical_of s (parent path)) (parent canon)
  ]

  unfoldable pub macos_error : List Bytes → ℕ → ResolveError
  macos_error path e = if e == 62 then symlink path else io e

  unfoldable pub macos_open_target : List Bytes → Result ResolveError ℕ
  unfolding has_nul check_realpath macos_error
  macos_open_target path = if has_nul path then err nul_byte else elim (s.open_at path) [
    | ok fd ↦ check_realpath path fd
    | err e ↦ err (macos_error path e)
  ]
