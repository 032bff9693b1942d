-- ===== src/Cli/VerifyProof.antt =====
-- crates/seck-cli/src/verify_proof.rs: the command `verify-proof` over the files and the run of `lake`.
-- A path is its list of names from the innermost one to the root.
use seck.Base.{
  ℕ, zero, suc, Bool, true, false, not, ◌&&◌, ◌||◌, Option, none, some, List, [], ◌∷◌, ◌++◌,
  if◌then◌else◌, Bytes, Text,
}
use seck.Base.Outcome.{Result, ok, err, ◌>>=◌, ◌>>◌, guard}
use seck.Base.Strings.{codes, contains, starts_with, trim_start, lines}
pub mod Sound
mod Runs

pub record LakeOutput : Type 0 where
  pub success : Bool
  pub stdout : Bytes
  pub stderr : Bytes

pub record Machine : Type 0 where
  pub current_exe : Option (List Bytes)
  pub is_file : List Bytes → Bool
  pub lake_build : List Bytes → Option LakeOutput
  pub read_to_string : List Bytes → Option Text

pub data ProofError : Type 0 where
  no_exe no_proof_dir no_lake read_proof : ProofError
  build_failed : LakeOutput → ProofError
  has_sorry : List Bytes → ℕ → ProofError

abbrev pub or_error {ℓ} : {A : Type ℓ} → ProofError → Option A → Result ProofError A
or_error e none = err e
or_error e (some a) = ok a

-- A line that counts: no comment as a whole, with one of the two words.
unfoldable pub is_unproved : Text → Bool
unfolding starts_with trim_start contains
is_unproved line =
    not (starts_with (codes "--") (trim_start line))
    && (contains (codes "sorry") line || contains (codes "admit") line)

-- The lines from a number on.
unfoldable pub scan_lines : List Bytes → ℕ → List Text → Result ProofError (Unit {0})
unfolding is_unproved
scan_lines p lineno [] = ok tt
scan_lines p lineno (line ∷ ls) =
    let rest = scan_lines p (suc lineno) ls in
    if is_unproved line then err (has_sorry p (suc lineno)) else rest

-- The files below `proof/`.
abbrev pub load_bearing : List (List Bytes)
load_bearing =
    (codes "IOBoundary.lean" ∷ codes "Seck" ∷ [])
    ∷ (codes "Correspondence.lean" ∷ codes "Seck" ∷ [])
    ∷ (codes "HostModel.lean" ∷ codes "Seck" ∷ [])
    ∷ (codes "ReaderModel.lean" ∷ codes "Seck" ∷ [])
    ∷ []

module _ (m : Machine) where
  -- The nearest directory above a path that has a `proof/` with a lakefile in it.
  unfoldable pub find_proof_dir : List Bytes → Option (List Bytes)
  find_proof_dir [] = none
  find_proof_dir (name ∷ dir) =
      let cand = codes "proof" ∷ dir in
      let rest = find_proof_dir dir in
      if m.is_file (codes "lakefile.toml" ∷ cand) then some cand else rest

  unfoldable pub scan_file : List Bytes → Result ProofError (Unit {0})
  unfolding scan_lines lines
  scan_file p = do body ← or_error read_proof (m.read_to_string p); scan_lines p 0 (lines body)

  unfoldable pub scan_files : List Bytes → List (List Bytes) → Result ProofError (Unit {0})
  unfolding scan_file
  scan_files proof_dir [] = ok tt
  scan_files proof_dir (rel ∷ rels) = scan_file (rel ++ proof_dir) >> scan_files proof_dir rels

  unfoldable pub verify_proof : Result ProofError (Unit {0})
  unfolding find_proof_dir scan_files
  verify_proof = do
    exe ← or_error no_exe m.current_exe
    proof_dir ← or_error no_proof_dir (find_proof_dir exe)
    out ← or_error no_lake (m.lake_build proof_dir)
    guard out.success (build_failed out)
    scan_files proof_dir load_bearing
