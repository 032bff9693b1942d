-- ===== src/Host/Walker/Limits.antt =====
-- The limits of the walk hold of its result.
use mathlib.Core.Path.{subst}
use seck.Base.{
  ℕ, ◌+◌, ◌%◌, ◌^◌, ◌≤◌, ◌<◌, ◌≡◌, refl, arith, Option, List, [], ◌∷◌, ◌++◌, ltb, ltb→lt, leb,
  leb→le, length, length-append, Bytes, All, All-append,
}
use seck.Base.Outcome.{ok, guard-eq-ok, bind-eq-ok, ok-injective}
use seck.Host.Walker.{
  WalkLimits, File, Node, file, symlink, special, unreadable, dir, Children, nil, broken, child,
  Entry, Walk, join_path, relative_of, walk_file, walk_inner, walk_dir, walk,
}

pub sizes : List Entry → ℕ
sizes [] = 0
sizes (e ∷ es) = e.size + sizes es

sizes-append : (a b : List Entry) → sizes (a ++ b) ≡ sizes a + sizes b
unfolding sizes
sizes-append [] b = omega arith
sizes-append (e ∷ a) b = omega (arith, sizes-append a b)

-- The limits leave room for one more file in 64 bits, and allow a file at all.
pub record IsSane (l : WalkLimits) : Type 0 where
  pub no_overflow : l.max_total_bytes + l.max_bytes_per_file < 2 ^ 64
  pub some_file : 0 < l.max_files

pub record IsWithin (l : WalkLimits) (w : Walk) : Type 0 where
  pub files_fit : length w.out ≤ l.max_files
  pub each_fits : All (λ e. e.size ≤ l.max_bytes_per_file) w.out
  pub total_is : w.total ≡ sizes w.out
  pub total_fits : w.total ≤ l.max_total_bytes

module _ (limits : WalkLimits) (sane : IsSane limits) (root_name : Option Bytes) where
  walk_file-IsWithin :
      (f : File) (rel : Bytes) (w w' : Walk)
      → IsWithin limits w
      → length w.out < limits.max_files
      → walk_file limits root_name rel f w ≡ ok w'
      → IsWithin limits w'
  unfolding walk_file sizes
  walk_file-IsWithin f rel w w' v room h =
      let (small, h₁) = guard-eq-ok (leb f.len limits.max_bytes_per_file) _ _ h in
      let (fits, h₂) =
        guard-eq-ok (leb ((w.total + f.len) % 2 ^ 64) limits.max_total_bytes) _ _ h₁ in
      let (opened, h₃) = guard-eq-ok f.opens _ _ h₂ in
      let e : Entry = record { relative = relative_of root_name rel; fd = f.inode; size = f.len } in
      let small' = leb→le _ _ small in
      let v' : IsWithin limits
          (record { out = w.out ++ e ∷ []; total = (w.total + f.len) % 2 ^ 64 }) =
        record {
          files_fit = omega (arith, room, length-append w.out (e ∷ []));
          each_fits =
              All-append (λ (x : Entry). x.size ≤ limits.max_bytes_per_file) w.out (e ∷ [])
                v.each_fits (small', tt);
          total_is = omega (
            arith,
            small',
            v.total_is,
            v.total_fits,
            sane.no_overflow,
            sizes-append w.out (e ∷ []),
          );
          total_fits = leb→le _ _ fits;
        } in
      subst (IsWithin limits) (ok-injective h₃) v'

  mutual
    unfolding walk_inner walk_dir

    walk_inner-IsWithin :
        (n : Node) (rel : Bytes) (w w' : Walk)
        → IsWithin limits w
        → length w.out < limits.max_files
        → walk_inner limits root_name n rel w ≡ ok w'
        → IsWithin limits w'
    walk_inner-IsWithin (file f) rel w w' v room h = walk_file-IsWithin f rel w w' v room h
    walk_inner-IsWithin symlink rel w w' v room h = subst (IsWithin limits) (ok-injective h) v
    walk_inner-IsWithin special rel w w' v room h = subst (IsWithin limits) (ok-injective h) v
    walk_inner-IsWithin unreadable rel w w' v room h = cc
    walk_inner-IsWithin (dir entries) rel w w' v room h = walk_dir-IsWithin entries rel w w' v h

    walk_dir-IsWithin :
        (c : Children) (rel : Bytes) (w w' : Walk)
        → IsWithin limits w
        → walk_dir limits root_name c rel w ≡ ok w'
        → IsWithin limits w'
    walk_dir-IsWithin nil rel w w' v h = subst (IsWithin limits) (ok-injective h) v
    walk_dir-IsWithin broken rel w w' v h = cc
    walk_dir-IsWithin (child name n rest) rel w w' v h =
        let (room, h₁) = guard-eq-ok (ltb (length w.out) limits.max_files) _ _ h in
        let (w₁, first, h₂) =
          bind-eq-ok (walk_inner limits root_name n (join_path rel name) w) _ h₁ in
        walk_dir-IsWithin rest rel w₁ w'
          (walk_inner-IsWithin n (join_path rel name) w w₁ v (ltb→lt _ _ room) first) h₂

pub record Respects (l : WalkLimits) (out : List Entry) : Type 0 where
  pub files_fit : length out ≤ l.max_files
  pub each_fits : All (λ e. e.size ≤ l.max_bytes_per_file) out
  pub total_fits : sizes out ≤ l.max_total_bytes

-- A walk that succeeds returns at most `max_files` files, none longer than `max_bytes_per_file`, and
-- their lengths add up to at most `max_total_bytes`. The limits must allow one file, and their sum
-- must fit 64 bits.
pub walk-Respects :
    (root : Node) (root_name : Option Bytes) (limits : WalkLimits) (out : List Entry)
    → IsSane limits
    → walk root root_name limits ≡ ok out
    → Respects limits out
unfolding walk
walk-Respects root root_name limits out sane h =
    let start : Walk = record { out = []; total = 0 } in
    let (w, e, h₁) = bind-eq-ok (walk_inner limits root_name root [] start) _ h in
    let begun : IsWithin limits start = record {
      files_fit = omega arith;
      each_fits = tt;
      total_is = unfold sizes in refl;
      total_fits = omega arith;
    } in
    let v = walk_inner-IsWithin limits sane root_name root [] start w begun sane.some_file e in
    subst (Respects limits) (ok-injective h₁) (record {
      files_fit = v.files_fit;
      each_fits = v.each_fits;
      total_fits = omega (arith, v.total_is, v.total_fits);
    })
