-- ===== src/Sandbox/Runs.antt =====
-- Runs of the container sandbox, and its theorem at a concrete input.
use seck.Base.{◌≡◌, refl, true, false, none, some, [], ◌∷◌}
use seck.Base.Outcome.{ok}
use seck.Base.Strings.{codes, starts_with, contains}
use seck.Sandbox.Container.{rootless_docker, Programs, detect_runtime}
use seck.Sandbox.Lockdown.{Platform, Vars, linux, fully_enforced, unconfined, lockdown}

-- Podman is there but not rootless, and Docker is.
abbrev two_runtimes : Programs
two_runtimes = record {
  split = some (codes "/bin" ∷ codes "/usr/bin" ∷ []);
  is_file = λ f. starts_with (codes "/usr") f;
  run = λ f args. some (record { success = true; stdout = codes "name=rootless" });
}

docker_found : detect_runtime two_runtimes false ≡ ok (rootless_docker (codes "/usr/bin/docker"))
unfolding detect_runtime starts_with contains
docker_found = refl

-- A kernel that enforces the whole ruleset.
abbrev enforcing : Platform
enforcing = linux record {
  is_x86_64 = true;
  prctl_no_new_privs = true;
  prctl_tsc = true;
  handles = true;
  creates = true;
  restricts = some fully_enforced;
}

abbrev no_vars : Vars
no_vars = record { seck_model_dir = none; seck_infer_bin = none }

confined : lockdown enforcing no_vars unconfined ≡ (
  ok tt,
  record unconfined { no_new_privs = true; tsc_faults = true; landlock = some fully_enforced },
)
unfolding lockdown
confined = refl
