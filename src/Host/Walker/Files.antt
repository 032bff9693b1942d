-- ===== src/Host/Walker/Files.antt =====
-- A walk that succeeds returns the regular files of the tree, depth first, and nothing else.
use seck.Base.{
  ◌≡◌, ◌∙◌, ap, arith, Option, List, [], ◌∷◌, ◌++◌, append-nil, append_assoc, ltb, length, Bytes,
}
use seck.Base.Outcome.{ok, guard-eq-ok, bind-eq-ok}
use seck.Host.Walker.{
  WalkLimits, Node, file, symlink, special, unreadable, dir, Children, nil, broken, child, Entry,
  Walk, join_path, relative_of, walk_file, walk_inner, walk_dir, walk,
}

mutual
  pub files : Option Bytes → Node → Bytes → List Entry
  files root_name (file f) rel =
      record { relative = relative_of root_name rel; fd = f.inode; size = f.len } ∷ []
  files root_name symlink rel = []
  files root_name special rel = []
  files root_name unreadable rel = []
  files root_name (dir entries) rel = files_below root_name entries rel

  pub files_below : Option Bytes → Children → Bytes → List Entry
  files_below root_name nil rel = []
  files_below root_name broken rel = []
  files_below root_name (child name n rest) rel =
      files root_name n (join_path rel name) ++ files_below root_name rest rel

module _ (limits : WalkLimits) (root_name : Option Bytes) where
  mutual
    unfolding walk_inner walk_dir walk_file files files_below

    walk_inner-files :
        (n : Node) (rel : Bytes) (w w' : Walk)
        → walk_inner limits root_name n rel w ≡ ok w'
        → w'.out ≡ w.out ++ files root_name n rel
    walk_inner-files (file f) rel w w' h = ground arith
    walk_inner-files symlink rel w w' h = ground (arith, append-nil w.out)
    walk_inner-files special rel w w' h = ground (arith, append-nil w.out)
    walk_inner-files unreadable rel w w' h = cc
    walk_inner-files (dir entries) rel w w' h = walk_dir-files entries rel w w' h

    walk_dir-files :
        (c : Children) (rel : Bytes) (w w' : Walk)
        → walk_dir limits root_name c rel w ≡ ok w'
        → w'.out ≡ w.out ++ files_below root_name c rel
    walk_dir-files nil rel w w' h = ground (arith, append-nil w.out)
    walk_dir-files broken rel w w' h = cc
    walk_dir-files (child name n rest) rel w w' h =
        let (room, h₁) = guard-eq-ok (ltb (length w.out) limits.max_files) _ _ h in
        let (w₁, first, h₂) =
          bind-eq-ok (walk_inner limits root_name n (join_path rel name) w) _ h₁ in
        walk_dir-files rest rel w₁ w' h₂
        ∙ ap (λ t. t ++ files_below root_name rest rel)
            (walk_inner-files n (join_path rel name) w w₁ first)
        ∙ append_assoc w.out _ _

-- A walk that succeeds returns every regular file below the root once, depth first in the order of
-- the directory listings, with its relative path, its inode and its length, and nothing for a
-- symbolic link or a special file.
pub walk-files :
    (root : Node) (root_name : Option Bytes) (limits : WalkLimits) (out : List Entry)
    → walk root root_name limits ≡ ok out
    → out ≡ files root_name root []
unfolding walk
walk-files root root_name limits out h =
    let (w, e, h₁) =
      bind-eq-ok (walk_inner limits root_name root [] (record { out = []; total = 0 })) _ h in
    cc (h₁, walk_inner-files limits root_name root [] (record { out = []; total = 0 }) w e)
