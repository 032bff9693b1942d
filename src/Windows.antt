-- ===== src/Windows.antt =====
-- The Windows side: crates/seck-host/src/orchestrator_windows.rs and
-- crates/seck-sandbox/src/windows.rs. The answers of Win32 are a parameter; the state counts what the
-- process holds open, and holds the mitigation policies that it has set.
pub mod Orchestrator
pub mod Sandbox
pub mod Laws
mod Runs
use seck.Base.{ℕ, suc, ◌+◌, ◌-◌, Bool, Option, Bytes, Text}
use seck.Base.Outcome.{Result}

-- What the process holds: open handles by their kind, SIDs to be freed, attribute lists.
pub record Held : Type 0 where
  pub files : ℕ
  pub threads : ℕ
  pub processes : ℕ
  pub tokens : ℕ
  pub jobs : ℕ
  pub sids : ℕ
  pub attribute_lists : ℕ

-- The policies that the sandbox sets, by the names of `PROCESS_MITIGATION_POLICY`.
pub data Policy : Type 0 where
  dynamic_code signature strict_handle_check image_load extension_point_disable
        system_call_disable :
      Policy

-- What a call answers: a handle, a SID or a number on success. An HRESULT is read as a `u32`.
pub record Win32 : Type 0 where
  pub last_error : ℕ
  pub create_file : Bytes → Option ℕ
  pub initialize_attribute_list : Bool
  pub update_attribute_list : Bool
  pub create_process : Text → Option ℕ
  pub create_profile : Text → ℕ × Bool
  pub derive_sid : Text → ℕ × Option Bytes
  pub open_process_token : Bool
  pub create_restricted_token : Option ℕ
  pub create_job_object : Option ℕ
  pub set_information_job_object : Bool
  pub assign_process_to_job_object : Bool
  pub set_mitigation_policy : Policy → ℕ → Bool
