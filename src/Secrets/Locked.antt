-- ===== src/Secrets/Locked.antt =====
-- `LockedBytes` and `lock_memory` of crates/seck-mem-hard/src/lib.rs on Linux, over the regions that the
-- kernel keeps locked. The kernel's answers, the allocator and zeroize are parameters.
use seck.Base.{
  Bool-cases, inl, inr, ℕ, ◌≡◌, ◌≢◌, refl, ap, ◌∙◌, arith, Bool, true, false, not, List, [], ◌∷◌,
  if◌then◌else◌, ◌==◌, length, All, Bytes,
}
use seck.Base.Outcome.{Result, ok, err}

-- A region by its address and its length.
abbrev pub Region : Type 0
Region = ℕ × ℕ

pub record Memory : Type 0 where
  pub locked : List Region
  pub dontdump : List Region
  pub dumpable : Bool

pub data LockError : Type 0 where
  mlock : LockError

pub record LockedBytes : Type 0 where
  pub ptr : ℕ
  pub bytes : Bytes
  pub capacity : ℕ

-- What `munlock` leaves of the locked regions, what `zeroize` makes of a vector, and what the free of an
-- allocation leaves of the locked regions: the kernel unlocks pages that the allocator unmaps.
pub record System : Type 0 where
  pub mlock_succeeds : Region → List Region → Bool
  pub munlock : Region → List Region → List Region
  pub madvise_succeeds : Bool
  pub prctl_succeeds : Bool
  pub zeroize : Bytes → Bytes
  pub dealloc : Region → List Region → List Region

module _ (s : System) where
  -- `madvise` may fail, which is ignored.
  unfoldable pub lock_memory : ℕ → ℕ → Memory → Result LockError (Unit {0}) × Memory
  lock_memory ptr len m =
      if len == 0
      then (ok tt, m)
      else if not (s.mlock_succeeds (ptr, len) m.locked)
      then (err mlock, m)
      else (
        ok tt,
        record m {
          locked = (ptr, len) ∷ m.locked;
          dontdump = if s.madvise_succeeds then (ptr, len) ∷ m.dontdump else m.dontdump;
        },
      )

  unfoldable pub harden_process : Memory → Memory
  harden_process m = if s.prctl_succeeds then record m { dumpable = false } else m

  -- The vector goes back to the allocator.
  unfoldable pub free : LockedBytes → Memory → Memory
  free b m = if b.capacity == 0 then m else record m {
    locked = s.dealloc (b.ptr, b.capacity) m.locked;
    dontdump = s.dealloc (b.ptr, b.capacity) m.dontdump;
  }

  abbrev pub locked_or :
      LockedBytes → Result LockError (Unit {0}) × Memory → Result LockError LockedBytes × Memory
  locked_or b (ok _, m) = (ok b, m)
  locked_or b (err e, m) = (err e, free b m)

  -- `LockedBytes::new` on a vector at an address, which is freed if it cannot be locked.
  unfoldable pub locked_new : LockedBytes → Memory → Result LockError LockedBytes × Memory
  unfolding lock_memory free
  locked_new v m =
      if not (length v.bytes == 0)
      then locked_or v (lock_memory v.ptr (length v.bytes) m)
      else (ok v, m)

  -- The vector is wiped before it is asked whether it is empty, and freed behind `drop`.
  unfoldable pub locked_drop : LockedBytes → Memory → Memory
  unfolding free
  locked_drop b m =
      let wiped = s.zeroize b.bytes in
      if not (length wiped == 0)
      then free b (record m { locked = s.munlock (b.ptr, b.capacity) m.locked })
      else free b m

  -- A buffer is made and dropped again.
  abbrev pub then_drop : Result LockError LockedBytes × Memory → Memory
  then_drop (ok b, m) = locked_drop b m
  then_drop (err e, m) = m

  unfoldable pub use_all : List LockedBytes → Memory → Memory
  unfolding locked_new locked_drop
  use_all [] m = m
  use_all (v ∷ vs) m = use_all vs (then_drop (locked_new v m))

-- What zeroize documents of a vector: it is cleared when it has been overwritten.
abbrev pub Clears : System → Type 0
Clears s = (b : Bytes) → s.zeroize b ≡ []

-- The regions of buffers, the last one first.
abbrev pub regions : List LockedBytes → List Region → List Region
regions [] rs = rs
regions (v ∷ vs) rs = regions vs ((v.ptr, length v.bytes) ∷ rs)

-- A vector with bytes, whose pages the allocator keeps mapped when it is freed.
pub record StaysMapped (s : System) (v : LockedBytes) : Type 0 where
  pub some_bytes : length v.bytes ≢ 0
  pub kept : (rs : List Region) → s.dealloc (v.ptr, v.capacity) rs ≡ rs

module _ (s : System) (clears : Clears s) where
  free-locked : (v : LockedBytes) (m : Memory) → StaysMapped s v → (free s v m).locked ≡ m.locked
  unfolding free
  free-locked v m k = elim (Bool-cases (v.capacity == 0)) [
    | inl e ↦ rw (e, free) refl
    | inr e ↦ rw (e, free) (k.kept m.locked)
  ]

  locked_drop_same :
      (v : LockedBytes) (m : Memory) → StaysMapped s v → (locked_drop s v m).locked ≡ m.locked
  unfolding locked_drop
  locked_drop_same v m k = rw (clears v.bytes) (free-locked v m k)

  use_one :
      (v : LockedBytes) (m : Memory)
      → StaysMapped s v
      → s.mlock_succeeds (v.ptr, length v.bytes) m.locked ≡ true
      → (then_drop s (locked_new s v m)).locked ≡ (v.ptr, length v.bytes) ∷ m.locked
  unfolding locked_new lock_memory
  use_one v m k h =
      let nz : (length v.bytes == 0) ≡ false = ground (arith, k.some_bytes) in
      rw (nz, h, locked_new) (locked_drop_same v _ k)

  -- Buffers that are locked, used and dropped one after the other all stay locked, if the allocator
  -- keeps their pages mapped when they are freed, zeroize clears vectors as documented and the kernel
  -- grants every lock.
  pub use_all-locked :
      (vs : List LockedBytes) (m : Memory)
      → ((r : Region) (rs : List Region) → s.mlock_succeeds r rs ≡ true)
      → All (StaysMapped s) vs
      → (use_all s vs m).locked ≡ regions vs m.locked
  unfolding use_all
  use_all-locked [] m h k = refl
  use_all-locked (v ∷ vs) m h k =
      use_all-locked vs (then_drop s (locked_new s v m)) h k.1
      ∙ ap (regions vs) (use_one v m k.0 (h _ _))
