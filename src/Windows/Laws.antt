-- ===== src/Windows/Laws.antt =====
-- Nothing stays open on the Windows side that is not handed out, and no mitigation is switched on.
use seck.Base.{
  ℕ, ◌+◌, ◌≡◌, ◌≢◌, ◌⊎◌, refl, sym, ap, ◌∙◌, arith, false, Bool-cases, inl, inr, none, some, List,
  [], ◌∷◌, Bytes, Text,
}
use seck.Base.Outcome.{Result, ok, err}
use seck.Windows.{
  Held, Policy, dynamic_code, signature, strict_handle_check, image_load, extension_point_disable,
  system_call_disable, Win32,
}
use seck.Windows.Orchestrator.{launch, run_sandboxed_windows}
use seck.Windows.Sandbox.{
  SandboxError, set_mitigation_policy_failed, zeroed_policies, Flags, Policy-discrete, set_flags,
  zeroed, appcontainer_name, already_exists, provision_profile, derive_sid, build_restricted_token,
  build_job_object, set_policy, set_policies, apply_self_lockdown,
}

-- A success hands one thing out, a failure nothing.
abbrev pub HandsOut : (Held → Held) → Held → Result SandboxError ℕ × Held → Type 0
HandsOut more s (ok h, t) = t ≡ more s
HandsOut more s (err e, t) = t ≡ s

abbrev pub one_token : Held → Held
one_token s = record s { tokens = s.tokens + 1 }

abbrev pub one_job : Held → Held
one_job s = record s { jobs = s.jobs + 1 }

module _ (w : Win32) where
  -- Whatever Win32 answers, the host holds after the launch what it held before.
  pub run_sandboxed_windows-held :
      (path : Bytes) (exe : Text) (s : Held) → (run_sandboxed_windows w path exe s).1 ≡ s
  unfolding run_sandboxed_windows launch
  run_sandboxed_windows-held path exe s = ground arith

  build_restricted_token-HandsOut : (s : Held) → HandsOut one_token s (build_restricted_token w s)
  unfolding build_restricted_token
  build_restricted_token-HandsOut s = ground arith

  build_job_object-HandsOut : (s : Held) → HandsOut one_job s (build_job_object w s)
  unfolding build_job_object
  build_job_object-HandsOut s = ground arith

  set_policy-cases :
      (q : Policy) (v : ℕ) (f : Flags)
      → (set_policy w q v f ≡ (ok tt, set_flags q v f))
        ⊎ ((e : SandboxError) × (set_policy w q v f ≡ (err e, f)))
  unfolding set_policy
  set_policy-cases q v f = elim (Bool-cases (w.set_mitigation_policy q v)) [
    | inl e ↦ inl (rw e refl)
    | inr e ↦ inr (set_mitigation_policy_failed q w.last_error, rw e refl)
  ]

  -- The flags once all of a list are set.
  set_all : List (Policy × ℕ) → Flags → Flags
  set_all [] f = f
  set_all ((q, v) ∷ rest) f = set_all rest (set_flags q v f)

  set_policies-set_all :
      (l : List (Policy × ℕ)) (f g : Flags) → set_policies w l f ≡ (ok tt, g) → set_all l f ≡ g
  unfolding set_policies set_all
  set_policies-set_all [] f g h = ap (λ (x : Result SandboxError (Unit {0}) × Flags). x.1) h
  set_policies-set_all ((q, v) ∷ rest) f g h = elim (set_policy-cases q v f) [
    | inl e ↦ set_policies-set_all rest (set_flags q v f) g (rw e at h)
    | inr (x, e) ↦ let h' = rw e at h in cc
  ]

  all_off : (f : Flags) (p : Policy) → set_all zeroed_policies f p ≡ some zeroed
  unfolding set_all Policy-discrete
  all_off f dynamic_code = refl
  all_off f signature = refl
  all_off f strict_handle_check = refl
  all_off f image_load = refl
  all_off f extension_point_disable = refl
  all_off f system_call_disable = refl

  -- When the lockdown succeeds, every policy has been set, to flags that are all off.
  pub apply_self_lockdown-zeroed :
      (f g : Flags) → apply_self_lockdown w f ≡ (ok tt, g) → (p : Policy) → g p ≡ some zeroed
  unfolding apply_self_lockdown
  apply_self_lockdown-zeroed f g h p =
      ap (λ (x : Flags). x p) (sym (set_policies-set_all zeroed_policies f g h)) ∙ all_off f p

  -- A failing call gives no SID.
  pub record GivesNoSid : Type 0 where
    pub created :
        (w.create_profile appcontainer_name).0 ≢ 0
        → (w.create_profile appcontainer_name).0 ≢ already_exists
        → (w.create_profile appcontainer_name).1 ≡ false
    pub derived : (w.derive_sid appcontainer_name).0 ≢ 0 → (w.derive_sid appcontainer_name).1 ≡ none

  -- The sandbox hands out one token or one job, or nothing on a failure, and frees every SID, if a
  -- failing call gives none.
  pub sandbox-held :
      (s : Held)
      → GivesNoSid
      → HandsOut one_token s (build_restricted_token w s)
        × HandsOut one_job s (build_job_object w s)
        × ((provision_profile w s).1 ≡ s)
        × ((derive_sid w s).1 ≡ s)
  unfolding provision_profile derive_sid
  sandbox-held s g = (
    build_restricted_token-HandsOut s,
    build_job_object-HandsOut s,
    ground (arith, g.created),
    ground (arith, g.derived),
  )
