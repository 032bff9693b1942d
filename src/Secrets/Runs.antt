-- ===== src/Secrets/Runs.antt =====
-- Two small buffers, whose pages stay mapped, of a process whose kernel grants every lock.
use seck.Base.{◌≡◌, refl, arith, true, [], ◌∷◌, List}
use seck.Secrets.Locked.{Memory, LockedBytes, System, use_all, regions, use_all-locked}

abbrev granting : System
granting = record {
  mlock_succeeds = λ r rs. true;
  munlock = λ r rs. [];
  madvise_succeeds = true;
  prctl_succeeds = true;
  zeroize = λ b. [];
  dealloc = λ r rs. rs;
}

abbrev start : Memory
start = record { locked = []; dontdump = []; dumpable = true }

abbrev two : List LockedBytes
two =
    record { ptr = 4096; bytes = 1 ∷ 2 ∷ []; capacity = 2 }
    ∷ record { ptr = 8192; bytes = 3 ∷ []; capacity = 4 }
    ∷ []

use_all-locked_example : (use_all granting two start).locked ≡ regions two []
use_all-locked_example =
    use_all-locked granting (λ b. refl) two start (λ r rs. refl)
      (
        record { some_bytes = omega arith; kept = λ rs. refl },
        (record { some_bytes = omega arith; kept = λ rs. refl }, tt),
      )
