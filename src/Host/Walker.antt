-- ===== src/Host/Walker.antt =====
-- `walk` of crates/seck-host/src/walker.rs, over the file tree that the system calls show.
pub mod Files
pub mod Limits
use seck.Base.{
  ℕ, ◌+◌, ◌*◌, ◌%◌, ◌^◌, Bool, Option, none, some, List, [], ◌∷◌, ◌++◌, ltb, leb, length, Bytes,
}
use seck.Base.Outcome.{Result, ok, err, ◌>>=◌, ◌>>◌, guard}

pub record WalkLimits : Type 0 where
  pub max_files : ℕ
  pub max_bytes_per_file : ℕ
  pub max_total_bytes : ℕ

-- `WalkLimits::default()`
abbrev pub default_limits : WalkLimits
default_limits = record {
  max_files = 10_000;
  max_bytes_per_file = 16 * 1024 * 1024;
  max_total_bytes = 256 * 1024 * 1024;
}

pub data WalkError : Type 0 where
  limit_files : WalkError
  limit_file_size : ℕ → WalkError
  limit_total : WalkError
  resolve : WalkError
  io : WalkError

-- A regular file: its length when the walk looks at it, and whether `open_target` opens it.
pub record File : Type 0 where
  pub inode : ℕ
  pub len : ℕ
  pub opens : Bool

-- `unreadable`: `symlink_metadata` or `read_dir` fails. `special`: neither link, directory nor file.
-- `broken`: the listing fails instead of giving another entry.
mutual
  pub data Node : Type 0 where
    file : File → Node
    symlink : Node
    special : Node
    unreadable : Node
    dir : Children → Node

  pub data Children : Type 0 where
    nil broken : Children
    child : Bytes → Node → Children → Children

-- An open file is named by its inode.
pub record Entry : Type 0 where
  pub relative : Bytes
  pub fd : ℕ
  pub size : ℕ

pub record Walk : Type 0 where
  pub out : List Entry
  pub total : ℕ

-- `path.join(name)`, below the root
abbrev pub join_path : Bytes → Bytes → Bytes
join_path [] name = name
join_path (b ∷ rel) name = (b ∷ rel) ++ b'/' ∷ name

-- The root itself, if it is a file, goes by its file name.
abbrev pub relative_of : Option Bytes → Bytes → Bytes
relative_of (some name) [] = name
relative_of _ rel = rel

unfoldable pub walk_file : WalkLimits → Option Bytes → Bytes → File → Walk → Result WalkError Walk
walk_file limits root_name rel f w = do
  guard (leb f.len limits.max_bytes_per_file) (limit_file_size f.len)
  let total = (w.total + f.len) % 2 ^ 64
  guard (leb total limits.max_total_bytes) limit_total
  guard f.opens resolve
  ok (record {
    out = w.out ++ record { relative = relative_of root_name rel; fd = f.inode; size = f.len } ∷ [];
    total = total;
  })

unfoldable mutual
  pub walk_inner : WalkLimits → Option Bytes → Node → Bytes → Walk → Result WalkError Walk
  walk_inner limits root_name (file f) rel w = walk_file limits root_name rel f w
  walk_inner limits root_name symlink rel w = ok w
  walk_inner limits root_name special rel w = ok w
  walk_inner limits root_name unreadable rel w = err io
  walk_inner limits root_name (dir entries) rel w = walk_dir limits root_name entries rel w

  pub walk_dir : WalkLimits → Option Bytes → Children → Bytes → Walk → Result WalkError Walk
  walk_dir limits root_name nil rel w = ok w
  walk_dir limits root_name broken rel w = err io
  walk_dir limits root_name (child name n rest) rel w = do
    guard (ltb (length w.out) limits.max_files) limit_files
    w ← walk_inner limits root_name n (join_path rel name) w
    walk_dir limits root_name rest rel w

unfoldable pub walk : Node → Option Bytes → WalkLimits → Result WalkError (List Entry)
walk root root_name limits = do
  w ← walk_inner limits root_name root [] (record { out = []; total = 0 })
  ok w.out
