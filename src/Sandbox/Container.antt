-- ===== src/Sandbox/Container.antt =====
-- `detect_runtime`, `which` and `build_args` of crates/seck-sandbox/src/container.rs. The search path,
-- the files and the output of a program are parameters.
use seck.Base.Paths.{path_join}
use seck.Base.{Bool, ◌&&◌, Option, none, some, List, [], ◌∷◌, ◌++◌, if◌then◌else◌, Bytes, Text}
use seck.Base.Outcome.{Result, ok, err, ◌>>=◌}
use seck.Base.Strings.{codes, starts_with, contains}

pub data Runtime : Type 0 where
  podman rootless_docker rootful_docker : Bytes → Runtime

pub data DetectError : Type 0 where
  no_runtime only_rootful_docker io : DetectError

-- What a program that ran printed, and whether it exited with success.
pub record Output : Type 0 where
  pub success : Bool
  pub stdout : Bytes

-- `split` is the list of directories of `PATH`, if that is set; `run` is `Command::output` with the
-- arguments of the source.
pub record Programs : Type 0 where
  pub split : Option (List Bytes)
  pub is_file : Bytes → Bool
  pub run : Bytes → List Text → Option Output

abbrev pub required : Option Output → Result DetectError Output
required none = err io
required (some out) = ok out

abbrev pub podman_info : List Text
podman_info = codes "info" ∷ codes "--format" ∷ codes "{{.Host.Security.Rootless}}" ∷ []

abbrev pub docker_info : List Text
docker_info = codes "info" ∷ codes "--format" ∷ codes "{{.SecurityOptions}}" ∷ []

module _ (p : Programs) where
  unfoldable pub find_in : Text → List Bytes → Option Bytes
  unfolding path_join
  find_in prog [] = none
  find_in prog (dir ∷ dirs) =
      let candidate = path_join dir prog in
      let rest = find_in prog dirs in if p.is_file candidate then some candidate else rest

  unfoldable pub which : Text → Option Bytes
  unfolding find_in
  which prog = elim p.split [ none ↦ none | some dirs ↦ find_in prog dirs ]

  unfoldable pub detect_docker : Bool → Option Bytes → Result DetectError Runtime
  detect_docker allow none = err no_runtime
  detect_docker allow (some d) = do
    out ← required (p.run d docker_info)
    if contains (codes "rootless") out.stdout
        then ok (rootless_docker d)
        else if allow
        then ok (rootful_docker d)
        else err only_rootful_docker

  unfoldable pub detect_podman : Bool → Option Bytes → Result DetectError Runtime
  unfolding detect_docker which
  detect_podman allow none = detect_docker allow (which (codes "docker"))
  detect_podman allow (some d) = do
    out ← required (p.run d podman_info)
    if out.success && starts_with (codes "true") out.stdout
        then ok (podman d)
        else detect_docker allow (which (codes "docker"))

  unfoldable pub detect_runtime : Bool → Result DetectError Runtime
  unfolding detect_podman which
  detect_runtime allow = detect_podman allow (which (codes "podman"))

-- The runtime does not change the arguments.
unfoldable pub build_args : Runtime → Text → List Text
build_args rt model_dir =
    codes "run"
    ∷ codes "--rm"
    ∷ codes "--network=none"
    ∷ codes "--read-only"
    ∷ codes "--cap-drop=ALL"
    ∷ codes "--security-opt=no-new-privileges"
    ∷ codes "--tmpfs=/tmp:noexec,nosuid,size=64m"
    ∷ codes "--memory=2g"
    ∷ codes "--pids-limit=64"
    ∷ codes "--no-healthcheck"
    ∷ codes "--hostname=seck-sandbox"
    ∷ codes "--ipc=none"
    ∷ codes "--cpus=1.0"
    ∷ (codes "--volume=" ++ (model_dir ++ codes ":/models:ro"))
    ∷ codes "--userns=auto"
    ∷ codes "-i"
    ∷ codes "localhost/seck-reader:0.1.0"
    ∷ []
