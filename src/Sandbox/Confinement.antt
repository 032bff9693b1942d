-- ===== src/Sandbox/Confinement.antt =====
-- What a lockdown that succeeds has done, and what none of them does.
use seck.Base.{◌≡◌, ◌⊎◌, Bool, true, Option, some}
use seck.Base.Outcome.{Result, ok, err}
use seck.Base.Strings.{codes}
use seck.Windows.{Policy}
use seck.Windows.Sandbox.{zeroed}
use seck.Sandbox.Lockdown.{
  windows, LockdownError, Confined, RulesetStatus, fully_enforced, partially_enforced, Platform,
  linux, macos, other_platform, Vars, or_default, seatbelt_params,
}

-- The state behind the lockdown on Linux, by the processor and the status of the ruleset.
pub record LinuxConfined (is_x86_64 : Bool) (r : Option RulesetStatus) (s : Confined) : Type 0 where
  pub no_new_privs_is : s.no_new_privs ≡ true
  pub tsc_faults_is : s.tsc_faults ≡ is_x86_64
  pub landlock_is : s.landlock ≡ r
  pub enforced : (r ≡ some fully_enforced) ⊎ (r ≡ some partially_enforced)

-- What the lockdown promises on each platform.
abbrev pub IsConfined : Platform → Vars → Confined → Type 0
IsConfined (linux l) v s = LinuxConfined l.is_x86_64 l.restricts s
IsConfined (macos a) v s =
    s.seatbelt
    ≡ some (
        seatbelt_params (or_default (codes "/tmp") v.seck_model_dir)
          (or_default (codes "/usr/bin/true") v.seck_infer_bin))
IsConfined (windows w) v s = (p : Policy) → s.mitigations p ≡ some zeroed
IsConfined other_platform v s = ⊥

-- The answer of a lockdown is a success only in a state of which the predicate holds; otherwise it
-- may have been applied in part.
abbrev pub Promises {ℓ} : {E A : Type 0} → (Confined → Type ℓ) → Result E A × Confined → Type ℓ
Promises P (ok _, s) = P s
Promises P (err _, s) = Unit

-- Nothing is said of system calls, and no buffer stays allocated.
abbrev pub Leaves : Confined → Confined → Type 0
Leaves s s' = (s'.seccomp ≡ s.seccomp) × (s'.error_buffers ≡ s.error_buffers)

module _ (x86 : Bool) (r : Option RulesetStatus) where
  abbrev Goal : Confined → Result LockdownError (Unit {0}) × Confined → Type 0
  Goal s answer = Promises (LinuxConfined x86 r) answer × Leaves s answer.1
