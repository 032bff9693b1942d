-- ===== src/Sandbox/Laws.antt =====
-- What `detect_runtime` has seen of the runtime that it returns, and the mounts of `build_args`.
use seck.Base.Paths.{path_join}
use seck.Base.{
  ◌≡◌, ◌⊎◌, refl, Bool, true, false, ◌&&◌, Bool-cases, Option-cases, inl, inr, Option, none, some,
  List, [], ◌∷◌, if◌then◌else◌, Bytes, Text,
}
use seck.Base.Outcome.{Result, ok, err}
use seck.Base.Strings.{codes, starts_with, contains}
use seck.Sandbox.Container.{
  Runtime, podman, rootless_docker, rootful_docker, DetectError, no_runtime, only_rootful_docker,
  io, Output, Programs, find_in, which, podman_info, docker_info, detect_docker, detect_podman,
  detect_runtime,
}

module _ (p : Programs) where
  -- The program was found on the path, and is a file.
  abbrev pub IsFound : Text → Bytes → Type 0
  IsFound prog d = (which p prog ≡ some d) × (p.is_file d ≡ true)

  pub record IsRootlessPodman (d : Bytes) : Type 0 where
    pub found : IsFound (codes "podman") d
    pub out : Output
    pub ran : p.run d podman_info ≡ some out
    pub succeeded : out.success ≡ true
    pub says_true : starts_with (codes "true") out.stdout ≡ true

  pub record IsDocker (rootless : Bool) (d : Bytes) : Type 0 where
    pub found : IsFound (codes "docker") d
    pub out : Output
    pub ran : p.run d docker_info ≡ some out
    pub says : contains (codes "rootless") out.stdout ≡ rootless

  abbrev pub IsSound : Bool → Result DetectError Runtime → Type 0
  IsSound allow (ok (podman d)) = IsRootlessPodman d
  IsSound allow (ok (rootless_docker d)) = IsDocker true d
  IsSound allow (ok (rootful_docker d)) = (allow ≡ true) × IsDocker false d
  IsSound allow (err no_runtime) = which p (codes "docker") ≡ none
  IsSound allow (err only_rootful_docker) = (allow ≡ false) × (d : Bytes) × IsDocker false d
  IsSound allow (err io) = Unit

  find_in-is_file :
      (prog : Text) (dirs : List Bytes) (d : Bytes)
      → find_in p prog dirs ≡ some d
      → p.is_file d ≡ true
  unfolding find_in
  find_in-is_file prog [] d h = cc
  find_in-is_file prog (dir ∷ dirs) d h = elim (Bool-cases (p.is_file (path_join dir prog))) [
    | inl e ↦ let h' = rw e at h in cc
    | inr e ↦ find_in-is_file prog dirs d (rw e at h)
  ]

  which-IsFound : (prog : Text) (d : Bytes) → which p prog ≡ some d → IsFound prog d
  unfolding which
  which-IsFound prog d h = (
    h,
    elim (Option-cases p.split) [
      | inl e ↦ let h' = rw e at h in cc
      | inr (dirs, e) ↦ find_in-is_file prog dirs d (rw e at h)
    ],
  )

  docker-IsSound :
      (allow : Bool) (o : Option Bytes)
      → which p (codes "docker") ≡ o
      → IsSound allow (detect_docker p allow o)
  unfolding detect_docker
  docker-IsSound allow none h = h
  docker-IsSound allow (some d) h = elim (Option-cases (p.run d docker_info)) [
    | inl e ↦ rw e tt
    | inr (out, e) ↦ rw e (answered allow out e (Bool-cases _))
  ]
    where
      answered :
          (allow : Bool) (out : Output)
          → p.run d docker_info ≡ some out
          → ((contains (codes "rootless") out.stdout ≡ true)
              ⊎ (contains (codes "rootless") out.stdout ≡ false))
          → IsSound allow (
              if contains (codes "rootless") out.stdout
              then ok (rootless_docker d)
              else if allow
              then ok (rootful_docker d)
              else err only_rootful_docker)
      answered allow out e (inl r) =
          rw r (record { found = which-IsFound (codes "docker") d h; out = out; ran = e; says = r })
      answered true out e (inr r) = rw r (
        refl,
        record { found = which-IsFound (codes "docker") d h; out = out; ran = e; says = r },
      )
      answered false out e (inr r) = rw r (
        refl,
        d,
        record { found = which-IsFound (codes "docker") d h; out = out; ran = e; says = r },
      )

  podman-IsSound :
      (allow : Bool) (o : Option Bytes)
      → which p (codes "podman") ≡ o
      → IsSound allow (detect_podman p allow o)
  unfolding detect_podman
  podman-IsSound allow none h = docker-IsSound allow _ refl
  podman-IsSound allow (some d) h = elim (Option-cases (p.run d podman_info)) [
    | inl e ↦ rw e tt
    | inr (out, e) ↦ rw e (answered out e (Bool-cases _) (Bool-cases _))
  ]
    where
      answered :
          (out : Output)
          → p.run d podman_info ≡ some out
          → ((out.success ≡ true) ⊎ (out.success ≡ false))
          → ((starts_with (codes "true") out.stdout ≡ true)
              ⊎ (starts_with (codes "true") out.stdout ≡ false))
          → IsSound allow (
              if out.success && starts_with (codes "true") out.stdout
              then ok (podman d)
              else detect_docker p allow (which p (codes "docker")))
      answered out e (inl a) (inl b) =
          rw (a, b)
            (record {
              found = which-IsFound (codes "podman") d h;
              out = out;
              ran = e;
              succeeded = a;
              says_true = b;
            })
      answered out e (inl a) (inr b) = rw (a, b) (docker-IsSound allow _ refl)
      answered out e (inr a) b = rw a (docker-IsSound allow _ refl)

  -- Podman is taken only if it says that it is rootless, Docker only if it says so or if the rootful
  -- one is allowed, each from a file on the path.
  pub detect_runtime-IsSound : (allow : Bool) → IsSound allow (detect_runtime p allow)
  unfolding detect_runtime
  detect_runtime-IsSound allow = podman-IsSound allow _ refl
