-- ===== src/Resolve/Runs.antt =====
-- A file system in which `/a/l` is a symbolic link to `/b`, and the theorem on it.
use seck.Base.{
  ℕ, ◌≡◌, refl, sym, ap, subst, ◌∙◌, Bool, false, ◌&&◌, Bool-cases, inl, inr, some, List, [], ◌∷◌,
  ◌++◌, equal, if◌then◌else◌, Bytes,
}
use seck.Base.Outcome.{ok, err}
use seck.Base.Strings.{codes}
use seck.Resolve.{System, symlink, has_nul, macos_open_target}
use seck.Resolve.Macos.{within_dir, IsFileSystem, macos_open_target_follows}

abbrev is_link_path : Bytes → Bytes → Bool
is_link_path n m = equal n (codes "a") && equal m (codes "l")

is_link : List Bytes → Bool
is_link (n ∷ m ∷ []) = is_link_path n m
is_link _ = false

real : List Bytes → List Bytes
real (n ∷ m ∷ p) = if is_link_path n m then codes "b" ∷ p else n ∷ m ∷ p
real p = p

abbrev linked : System
linked = record {
  open_at = λ p. if is_link p then err 62 else ok 3;
  canonicalize = λ p. some (real p);
}

opened_link : (p : List Bytes) (fd : ℕ) → linked.open_at p ≡ ok fd → is_link p ≡ false
opened_link p fd h = elim (Bool-cases (is_link p)) [ inl l ↦ cc (rw l at h) | inr o ↦ o ]

real_link :
    (dir : List Bytes) (name : Bytes)
    → is_link (dir ++ name ∷ []) ≡ false
    → is_link (real dir ++ name ∷ []) ≡ false
unfolding is_link real equal
real_link [] name h = h
real_link (n ∷ []) name h = h
real_link (n ∷ m ∷ []) name h = elim (Bool-cases (is_link_path n m)) [
  | inl l ↦ rw l refl
  | inr o ↦ rw o refl
]
real_link (n ∷ m ∷ x ∷ []) name h = elim (Bool-cases (is_link_path n m)) [
  | inl l ↦ rw l refl
  | inr o ↦ rw o refl
]
real_link (n ∷ m ∷ x ∷ y ∷ d) name h = elim (Bool-cases (is_link_path n m)) [
  | inl l ↦ rw l refl
  | inr o ↦ rw o refl
]

real_within :
    (dir : List Bytes) (name : Bytes)
    → is_link (real dir ++ name ∷ []) ≡ false
    → real (dir ++ name ∷ []) ≡ real dir ++ name ∷ []
unfolding is_link real
real_within [] name h = refl
real_within (n ∷ []) name h = rw h refl
real_within (n ∷ m ∷ d) name h = elim (Bool-cases (is_link_path n m)) [
  | inl l ↦ rw l refl
  | inr o ↦ rw o refl
]

some-injective : {p q : List Bytes} → some p ≡ some q → p ≡ q
some-injective h = cc

linked-IsFileSystem : IsFileSystem linked is_link
linked-IsFileSystem = record {
  nofollow = λ dir cdir name fd entry opened c.
      subst (λ (x : List Bytes). is_link (within_dir x name) ≡ false) (some-injective c)
        (real_link dir name (opened_link (within_dir dir name) fd opened));
  resolves = λ dir cdir canon name entry c l e. (
    name,
    sym (some-injective e)
        ∙ real_within dir name (
            subst (λ (x : List Bytes). is_link (within_dir x name) ≡ false) (sym (some-injective c))
              l)
        ∙ ap (λ x. within_dir x name) (some-injective c),
  );
}

link_refused :
    macos_open_target linked (codes "a" ∷ codes "l" ∷ [])
    ≡ err (symlink (codes "a" ∷ codes "l" ∷ []))
unfolding macos_open_target is_link equal
link_refused = refl

macos_open_target_follows_example :
    macos_open_target linked (within_dir (codes "a" ∷ codes "l" ∷ []) (codes "f")) ≡ ok 3
unfolding has_nul is_link equal
macos_open_target_follows_example =
    macos_open_target_follows linked is_link linked-IsFileSystem (codes "a" ∷ codes "l" ∷ [])
      (codes "f") 3 (record { not_empty = refl; not_here = refl; not_up = refl }) refl refl
