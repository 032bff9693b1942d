-- ===== src/Host/Runs.antt =====
-- Runs of the walk and of the reading, and the theorems of `Host` at concrete inputs.
use seck.Base.{ℕ, zero, suc, ◌≡◌, refl, arith, true, none, some, List, [], ◌∷◌, map, All}
use seck.Base.Outcome.{ok, err}
use seck.Base.Strings.{codes}
use seck.Base.Utf8.{to_string_lossy}
use seck.Wire.{FileEntry}
use seck.Wire.Writer.{encode}
use seck.Wire.Reader.{read_frames}
use seck.Host.Walker.{
  Node, file, symlink, dir, nil, broken, child, Entry, default_limits, limit_files, io, walk_file,
  walk_inner, walk,
}
use seck.Host.Walker.Limits.{Respects, walk-Respects}
use seck.Host.Fileset.{Answers, content, build_fileset}
use seck.Host.Delivery.{IsSteady, received, delivery}

-- a/x (3 bytes), a link, y (1 byte)
abbrev pub tree : Node
tree = dir (
    child (codes "a")
      (dir (child (codes "x") (file (record { inode = 1; len = 3; opens = true })) nil))
      (child (codes "link") symlink
        (child (codes "y") (file (record { inode = 2; len = 1; opens = true })) nil)))

abbrev pub walked : List Entry
walked =
    record { relative = codes "a/x"; fd = 1; size = 3 }
    ∷ record { relative = codes "y"; fd = 2; size = 1 }
    ∷ []

pub walk-tree : walk tree none default_limits ≡ ok walked
unfolding walk walk_inner walk_file
walk-tree = refl

-- One file allowed: the second is refused before it is looked at.
walk_one : walk tree none (record default_limits { max_files = 1 }) ≡ err limit_files
unfolding walk walk_inner walk_file
walk_one = refl

-- A listing that fails is told as such, though the limit is reached.
broken_listing :
    walk
      (dir (child (codes "a") (file (record { inode = 1; len = 3; opens = true })) broken))
      none
      (record default_limits { max_files = 1 })
    ≡ err io
unfolding walk walk_inner walk_file
broken_listing = refl

walk-Respects_example : Respects default_limits walked
walk-Respects_example =
    walk-Respects tree none default_limits walked
      (record { no_overflow = omega arith; some_file = omega arith }) walk-tree

-- The first file comes in two calls and has grown; the second is read to its end.
abbrev pub answers : ℕ → Answers
answers zero = []
answers (suc zero) = some (codes "12") ∷ some (codes "345") ∷ []
answers (suc (suc n)) = some (codes "z") ∷ some [] ∷ []

abbrev pub fileset : List FileEntry
fileset =
    record { relative = codes "a/x"; bytes = codes "123"; size = 3 }
    ∷ record { relative = codes "y"; bytes = codes "z"; size = 1 }
    ∷ []

pub build_tree : build_fileset answers walked ≡ ok fileset
unfolding build_fileset
build_tree = refl

-- A file that has shrunk keeps the size that the walk saw.
build_shrunk :
    build_fileset (λ fd. some (codes "1") ∷ []) (record { relative = []; fd = 0; size = 9 } ∷ [])
    ≡ ok (record { relative = []; bytes = codes "1"; size = 9 } ∷ [])
unfolding build_fileset
build_shrunk = refl

pub walked-IsSteady : All (IsSteady answers) walked
unfolding to_string_lossy content
walked-IsSteady = (
  record { path_fits = omega arith; not_shrunk = omega arith },
  (record { path_fits = omega arith; not_shrunk = omega arith }, tt),
)

delivery_example : read_frames (encode fileset) ≡ ok (map (received answers) walked, [])
delivery_example = delivery tree none answers walked fileset walk-tree build_tree walked-IsSteady
