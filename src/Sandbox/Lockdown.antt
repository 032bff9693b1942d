-- ===== src/Sandbox/Lockdown.antt =====
-- `apply_self_lockdown` of crates/seck-sandbox/src/lib.rs, linux.rs and macos.rs, and the profile's
-- digest. The answers of the system calls, of Landlock and of Seatbelt are parameters, and so are the
-- bundled profiles; the lockdown of Windows stands in `Windows.Sandbox`.
use seck.Base.{
  ℕ, ◌+◌, ◌-◌, Bool, true, false, not, ◌||◌, Option, none, some, List, [], ◌∷◌, ◌++◌, if◌then◌else◌,
  Bytes, Text,
}
use seck.Base.Outcome.{Result, ok, err}
use seck.Base.Strings.{codes}
use seck.Base.Utf8.{to_string_lossy}
use seck.Resolve.{name_has_nul}
use seck.Windows.{Win32}
use seck.Windows.Sandbox.{SandboxError, Flags, apply_self_lockdown}

pub data LockdownError : Type 0 where
  set_no_new_privs set_tsc handle_access create restrict_self not_enforced : LockdownError
  nul_byte : LockdownError
  sandbox_init : Text → LockdownError
  no_backend : LockdownError
  windows_sandbox : SandboxError → LockdownError

-- `RulesetStatus`
pub data RulesetStatus : Type 0 where
  fully_enforced partially_enforced ruleset_not_enforced : RulesetStatus

-- What holds of a process.
pub record Confined : Type 0 where
  pub no_new_privs : Bool
  pub tsc_faults : Bool
  pub landlock : Option RulesetStatus
  pub seccomp : Bool
  pub seatbelt : Option (List Bytes)
  pub error_buffers : ℕ
  pub mitigations : Flags

abbrev pub unconfined : Confined
unconfined = record {
  no_new_privs = false;
  tsc_faults = false;
  landlock = none;
  seccomp = false;
  seatbelt = none;
  error_buffers = 0;
  mitigations = λ p. none;
}

-- The answers on Linux: whether a call succeeds, and the status of the ruleset.
pub record Linux : Type 0 where
  pub is_x86_64 : Bool
  pub prctl_no_new_privs : Bool
  pub prctl_tsc : Bool
  pub handles : Bool
  pub creates : Bool
  pub restricts : Option RulesetStatus

-- The answer of Seatbelt to a profile and the parameters: none if it is applied, else the
-- message, if there is one.
pub record Macos : Type 0 where
  pub seatbelt_sb : Bytes
  pub init : Bytes → List Bytes → Option (Option Bytes)

-- 3., and no filter of system calls behind it.
unfoldable pub landlock_step :
    Bool → Bool → Option RulesetStatus → Confined → Result LockdownError (Unit {0}) × Confined
landlock_step handles creates restricts s =
    if not handles
    then (err handle_access, s)
    else if not creates
    then (err create, s)
    else elim restricts [
      | none ↦ (err restrict_self, s)
      | some ruleset_not_enforced ↦
          (err not_enforced, record s { landlock = some ruleset_not_enforced })
      | some fully_enforced ↦ (ok tt, record s { landlock = some fully_enforced })
      | some partially_enforced ↦ (ok tt, record s { landlock = some partially_enforced })
    ]

-- 2., on x86-64 only, and what comes behind it.
unfoldable pub tsc_step :
    Bool
    → Bool
    → (Confined → Result LockdownError (Unit {0}) × Confined)
    → Confined
    → Result LockdownError (Unit {0}) × Confined
tsc_step is_x86_64 prctl_tsc rest s =
    if not is_x86_64
    then rest s
    else if not prctl_tsc
    then (err set_tsc, s)
    else rest (record s { tsc_faults = true })

unfoldable pub linux_lockdown : Linux → Confined → Result LockdownError (Unit {0}) × Confined
unfolding tsc_step landlock_step
linux_lockdown l s =
    if not l.prctl_no_new_privs
    then (err set_no_new_privs, s)
    else tsc_step l.is_x86_64 l.prctl_tsc (landlock_step l.handles l.creates l.restricts)
        (record s { no_new_privs = true })

abbrev pub seatbelt_params : Bytes → Bytes → List Bytes
seatbelt_params model_dir infer_bin =
    codes "MODEL_DIR" ∷ model_dir ∷ codes "INFER_BIN" ∷ infer_bin ∷ []

-- The buffer of a message is allocated by the library and freed here.
unfoldable pub seatbelt_answer :
    List Bytes → Option (Option Bytes) → Confined → Result LockdownError (Unit {0}) × Confined
seatbelt_answer params none s = (ok tt, record s { seatbelt = some params })
seatbelt_answer params (some none) s =
    (err (sandbox_init (codes "unknown sandbox error (errbuf was NULL)")), s)
seatbelt_answer params (some (some message)) s =
    let allocated = record s { error_buffers = s.error_buffers + 1 } in
    (
      err (sandbox_init (to_string_lossy message)),
      record allocated { error_buffers = allocated.error_buffers - 1 },
    )

unfoldable pub macos_lockdown :
    Macos → Bytes → Bytes → Confined → Result LockdownError (Unit {0}) × Confined
unfolding seatbelt_answer name_has_nul
macos_lockdown a model_dir infer_bin s =
    if name_has_nul a.seatbelt_sb || name_has_nul model_dir || name_has_nul infer_bin
    then (err nul_byte, s)
    else seatbelt_answer (seatbelt_params model_dir infer_bin)
        (a.init a.seatbelt_sb (seatbelt_params model_dir infer_bin)) s

pub data Platform : Type 0 where
  linux : Linux → Platform
  macos : Macos → Platform
  windows : Win32 → Platform
  other_platform : Platform

-- The variables that the macOS lockdown looks up.
pub record Vars : Type 0 where
  pub seck_model_dir : Option Bytes
  pub seck_infer_bin : Option Bytes

abbrev pub or_default : Bytes → Option Bytes → Bytes
or_default d none = d
or_default d (some v) = v

-- The answer and the flags of Windows.
abbrev pub of_windows :
    Confined → Result SandboxError (Unit {0}) × Flags → Result LockdownError (Unit {0}) × Confined
of_windows s (ok _, flags) = (ok tt, record s { mitigations = flags })
of_windows s (err e, flags) = (err (windows_sandbox e), record s { mitigations = flags })

unfoldable pub lockdown : Platform → Vars → Confined → Result LockdownError (Unit {0}) × Confined
unfolding linux_lockdown macos_lockdown apply_self_lockdown
lockdown (linux l) v s = linux_lockdown l s
lockdown (macos a) v s =
    macos_lockdown a (or_default (codes "/tmp") v.seck_model_dir)
      (or_default (codes "/usr/bin/true") v.seck_infer_bin) s
lockdown (windows w) v s = of_windows s (apply_self_lockdown w s.mitigations)
lockdown other_platform v s = (err no_backend, s)

-- The files that are bundled for a platform.
pub record Bundled : Type 0 where
  pub seccomp_bpf_toml : Bytes
  pub landlock_toml : Bytes
  pub seatbelt_sb : Bytes

unfoldable pub bundled_profile_hash : (Bytes → Bytes) → Bundled → Platform → Bytes
bundled_profile_hash sha3_256 b (linux l) = sha3_256 (b.seccomp_bpf_toml ++ b.landlock_toml)
bundled_profile_hash sha3_256 b (macos a) = sha3_256 b.seatbelt_sb
bundled_profile_hash sha3_256 b (windows w) = sha3_256 (codes "windows-appcontainer-v1")
bundled_profile_hash sha3_256 b other_platform = sha3_256 []
