-- ===== src/Windows/Runs.antt =====
-- Runs of the Windows side, and its theorems at concrete inputs.
use seck.Base.{◌≡◌, refl, true, none, some}
use seck.Base.Outcome.{ok, err}
use seck.Base.Strings.{codes, decimal}
use seck.Windows.{Held, image_load, Win32}
use seck.Windows.Orchestrator.{create_process_failed, build_cmdline, run_sandboxed_windows}
use seck.Windows.Sandbox.{Flags, zeroed, apply_self_lockdown, set_policy, set_policies}
use seck.Windows.Laws.{GivesNoSid, apply_self_lockdown-zeroed}

-- Everything is answered, but no job object is made and no process started.
abbrev answers : Win32
answers = record {
  last_error = 5;
  create_file = λ p. some 72;
  initialize_attribute_list = true;
  update_attribute_list = true;
  create_process = λ c. none;
  create_profile = λ n. (0, true);
  derive_sid = λ n. (0, some (codes "S-1-15-2"));
  open_process_token = true;
  create_restricted_token = some 80;
  create_job_object = none;
  set_information_job_object = true;
  assign_process_to_job_object = true;
  set_mitigation_policy = λ p v. true;
}

abbrev idle : Held
idle = record {
  files = 0;
  threads = 0;
  processes = 0;
  tokens = 0;
  jobs = 0;
  sids = 0;
  attribute_lists = 0;
}

cmdline : build_cmdline (codes "C:\\seck.exe") 72 ≡ codes "\"C:\\seck.exe\" analyze --handle=72"
unfolding build_cmdline decimal
cmdline = refl

no_process :
    run_sandboxed_windows answers (codes "a") (codes "seck.exe") idle
    ≡ (err (create_process_failed 5), idle)
unfolding run_sandboxed_windows
no_process = refl

answers-GivesNoSid : GivesNoSid answers
answers-GivesNoSid = record { created = λ a b. absurd (a refl); derived = λ a. absurd (a refl) }

abbrev unset : Flags
unset p = none

abbrev locked : Flags
locked = (apply_self_lockdown answers unset).1

locks_down : apply_self_lockdown answers unset ≡ (ok tt, locked)
unfolding apply_self_lockdown set_policies set_policy
locks_down = refl

apply_self_lockdown-zeroed_example : locked image_load ≡ some zeroed
apply_self_lockdown-zeroed_example =
    apply_self_lockdown-zeroed answers unset locked locks_down image_load
