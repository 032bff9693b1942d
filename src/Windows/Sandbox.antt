-- ===== src/Windows/Sandbox.antt =====
-- `WindowsSandbox` of crates/seck-sandbox/src/windows.rs.
use seck.Base.{
  ℕ, ◌+◌, ◌-◌, Bool, true, not, ◌&&◌, Option, none, some, List, [], ◌∷◌, ◌++◌, ◌==◌, if◌then◌else◌,
  Bytes, Text,
}
use seck.Base.Outcome.{Result, ok, err}
use seck.Base.Strings.{codes}
use seck.Windows.{
  Held, Policy, dynamic_code, signature, strict_handle_check, image_load, extension_point_disable,
  system_call_disable, Win32,
}

pub data SandboxError : Type 0 where
  create_profile_failed : ℕ → SandboxError
  derive_sid_failed : ℕ → SandboxError
  open_process_token_failed : ℕ → SandboxError
  create_restricted_token_failed : ℕ → SandboxError
  create_job_object_failed : ℕ → SandboxError
  set_information_job_object_failed : ℕ → SandboxError
  assign_process_to_job_object_failed : ℕ → SandboxError
  set_mitigation_policy_failed : Policy → ℕ → SandboxError

abbrev pub appcontainer_name : Text
appcontainer_name = codes "Seck.Analyzer"

-- ERROR_ALREADY_EXISTS
abbrev pub already_exists : ℕ
already_exists = 0x800700B7

-- The hash of the profile, over all that is hashed in one piece.
unfoldable pub profile_hash : (Bytes → Bytes) → Bytes
profile_hash sha3_256 = sha3_256 (
    codes "windows-appcontainer-v1"
    ++ (appcontainer_name ++ codes "acg|cig|dep|aslr|eaf|strict-handle|syscall-disable"))

abbrev pub taken : Bool → Held → Held
taken given s = if given then record s { sids = s.sids + 1 } else s

abbrev pub freed : Bool → Held → Held
freed given s = if given then record s { sids = s.sids - 1 } else s

-- What a process has switched on, by policy: the flags of the value last set.
abbrev pub Flags : Type 0
Flags = Policy → Option ℕ

unfoldable pub Policy-discrete : Discrete Policy
Policy-discrete = hlevel

abbrev pub set_flags : Policy → ℕ → Flags → Flags
set_flags which value f p = elim (Policy-discrete which p) [ yes e ↦ some value | no n ↦ f p ]

-- `core::mem::zeroed()`
abbrev pub zeroed : ℕ
zeroed = 0

-- The six values of `apply_mitigations`, in order.
abbrev pub zeroed_policies : List (Policy × ℕ)
zeroed_policies =
    (dynamic_code, zeroed)
    ∷ (signature, zeroed)
    ∷ (strict_handle_check, zeroed)
    ∷ (image_load, zeroed)
    ∷ (extension_point_disable, zeroed)
    ∷ (system_call_disable, zeroed)
    ∷ []

-- `?`
abbrev pub and_then :
    Result SandboxError (Unit {0}) × Flags
    → (Flags → Result SandboxError (Unit {0}) × Flags)
    → Result SandboxError (Unit {0}) × Flags
and_then (ok u, f) k = k f
and_then (err e, f) k = (err e, f)

module _ (w : Win32) where
  unfoldable pub provision_profile : Held → Result SandboxError (Unit {0}) × Held
  provision_profile s =
      let (hr, given) = w.create_profile appcontainer_name in
      let s' = taken given s in
      if not (hr == 0) && not (hr == already_exists)
      then (err (create_profile_failed hr), s')
      else (ok tt, freed given s')

  unfoldable pub derive_sid : Held → Result SandboxError Bytes × Held
  derive_sid s =
      let (hr, sid) = w.derive_sid appcontainer_name in
      elim sid [
        | none ↦ (err (derive_sid_failed hr), s)
        | some bytes ↦
            if not (hr == 0)
            then (err (derive_sid_failed hr), taken true s)
            else (ok bytes, freed true (taken true s))
      ]

  -- The caller owns the handle that is returned.
  unfoldable pub build_restricted_token : Held → Result SandboxError ℕ × Held
  build_restricted_token s =
      if not w.open_process_token
      then (err (open_process_token_failed w.last_error), s)
      else let s' = record s { tokens = s.tokens + 1 } in
        elim w.create_restricted_token [
          | none ↦ (
            err (create_restricted_token_failed w.last_error),
            record s' { tokens = s'.tokens - 1 },
          )
          | some restricted ↦
              let t = record s' { tokens = s'.tokens + 1 } in
              (ok restricted, record t { tokens = t.tokens - 1 })
        ]

  unfoldable pub build_job_object : Held → Result SandboxError ℕ × Held
  build_job_object s = elim w.create_job_object [
    | none ↦ (err (create_job_object_failed w.last_error), s)
    | some job ↦
        let s' = record s { jobs = s.jobs + 1 } in
        if not w.set_information_job_object
        then (
          err (set_information_job_object_failed w.last_error),
          record s' { jobs = s'.jobs - 1 },
        )
        else (ok job, s')
  ]

  unfoldable pub set_policy : Policy → ℕ → Flags → Result SandboxError (Unit {0}) × Flags
  set_policy which value f =
      if not (w.set_mitigation_policy which value)
      then (err (set_mitigation_policy_failed which w.last_error), f)
      else (ok tt, set_flags which value f)

  -- The values are set in turn, up to the first that is refused.
  unfoldable pub set_policies : List (Policy × ℕ) → Flags → Result SandboxError (Unit {0}) × Flags
  set_policies [] f = (ok tt, f)
  set_policies ((which, value) ∷ rest) f = and_then (set_policy which value f) (set_policies rest)

  unfoldable pub apply_mitigations : Flags → Result SandboxError (Unit {0}) × Flags
  apply_mitigations = set_policies zeroed_policies

  unfoldable pub apply_self_lockdown : Flags → Result SandboxError (Unit {0}) × Flags
  unfolding apply_mitigations
  apply_self_lockdown = apply_mitigations

  unfoldable pub attach_to_job : Result SandboxError (Unit {0})
  attach_to_job =
      if not w.assign_process_to_job_object
      then err (assign_process_to_job_object_failed w.last_error)
      else ok tt
