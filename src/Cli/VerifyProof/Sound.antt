-- ===== src/Cli/VerifyProof/Sound.antt =====
-- What a success of `verify-proof` says.
use seck.Base.{
  sym, ◌∙◌, Bool, true, false, ◌⊎◌, not, ◌&&◌, ◌||◌, arith, ℕ, suc, ◌≡◌, ◌↔◌, refl, true, false,
  Bool-cases, inl, inr, Option, none, some, List, [], ◌∷◌, ◌++◌, All, Bytes, Text,
}
use seck.Base.Outcome.{ok, bind-eq-ok, guard-eq-ok}
use seck.Base.Strings.{codes, starts_with, contains, trim_start, lines}
use seck.Cli.VerifyProof.{
  Machine, LakeOutput, ProofError, read_proof, no_exe, no_proof_dir, no_lake, build_failed,
  or_error, is_unproved, scan_lines, scan_file, scan_files, find_proof_dir, load_bearing,
  verify_proof,
}

or_error-eq-ok :
    {A : Type 0} (e : ProofError) (o : Option A) {a : A} → or_error e o ≡ ok a → o ≡ some a
or_error-eq-ok e none h = cc
or_error-eq-ok e (some b) h = cc

-- A line that starts as a comment, or in which neither word stands.
abbrev pub IsProvedLine : Text → Type 0
IsProvedLine line =
    (starts_with (codes "--") (trim_start line) ≡ true)
    ⊎ ((contains (codes "sorry") line ≡ false) × (contains (codes "admit") line ≡ false))

abbrev pub IsProved : List Text → Type 0
IsProved ls = All IsProvedLine ls

IsProvedLine-iff : (line : Text) → (is_unproved line ≡ false) ↔ IsProvedLine line
unfolding is_unproved
IsProvedLine-iff line =
    of (starts_with (codes "--") (trim_start line)) (contains (codes "sorry") line)
      (contains (codes "admit") line)
  where
    of : (a b c : Bool) → ((not a && (b || c)) ≡ false) ↔ ((a ≡ true) ⊎ ((b ≡ false) × (c ≡ false)))
    of a b c = (λ h. ground (arith, h), λ h. ground (arith, h))

true-false : ¬ (true ≡ false)
true-false h = cc

scan_lines_iff :
    (p : List Bytes) (n : ℕ) (ls : List Text) → (scan_lines p n ls ≡ ok tt) ↔ IsProved ls
unfolding scan_lines
scan_lines_iff p n [] = (λ h. tt, λ h. refl)
scan_lines_iff p n (l ∷ ls) = elim (Bool-cases (is_unproved l)) [
  | inl bad ↦ (
    λ h. let h₁ = rw bad at h in cc,
    λ h.
        let h₁ : is_unproved l ≡ false = (IsProvedLine-iff l).1 h.0 in
        absurd (true-false (sym bad ∙ h₁)),
  )
  | inr fine ↦ (
    λ h. let h₁ = rw fine at h in ((IsProvedLine-iff l).0 fine, (scan_lines_iff p (suc n) ls).0 h₁),
    λ h. rw fine ((scan_lines_iff p (suc n) ls).1 h.1),
  )
]

module _ (m : Machine) where
  pub record FileProved (p : List Bytes) : Type 0 where
    pub body : Text
    pub body_is : m.read_to_string p ≡ some body
    pub is_proved : IsProved (lines body)

  scan_file_iff : (p : List Bytes) → (scan_file m p ≡ ok tt) ↔ FileProved p
  unfolding scan_file
  scan_file_iff p = (
    λ h.
        let (body, e, h₁) = bind-eq-ok (or_error read_proof (m.read_to_string p)) _ h in
        record {
          body = body;
          body_is = or_error-eq-ok read_proof _ e;
          is_proved = (scan_lines_iff p 0 (lines body)).0 h₁;
        },
    λ f. rw f.body_is ((scan_lines_iff p 0 (lines f.body)).1 f.is_proved),
  )

  scan_files_iff :
      (dir : List Bytes) (rels : List (List Bytes))
      → (scan_files m dir rels ≡ ok tt) ↔ All (λ rel. FileProved (rel ++ dir)) rels
  unfolding scan_files
  scan_files_iff dir [] = (λ h. tt, λ h. refl)
  scan_files_iff dir (rel ∷ rels) = (
    λ h.
        let (u, e, h₁) = bind-eq-ok (scan_file m (rel ++ dir)) (λ _. scan_files m dir rels) h in
        ((scan_file_iff (rel ++ dir)).0 e, (scan_files_iff dir rels).0 h₁),
    λ f. rw ((scan_file_iff (rel ++ dir)).1 f.0) ((scan_files_iff dir rels).1 f.1),
  )

  -- The proof is found, built, and scanned.
  pub record Verified : Type 0 where
    pub exe : List Bytes
    pub proof_dir : List Bytes
    pub out : LakeOutput
    pub exe_is : m.current_exe ≡ some exe
    pub found : find_proof_dir m exe ≡ some proof_dir
    pub built : m.lake_build proof_dir ≡ some out
    pub success_is : out.success ≡ true
    pub io_boundary : FileProved (codes "IOBoundary.lean" ∷ codes "Seck" ∷ proof_dir)
    pub correspondence : FileProved (codes "Correspondence.lean" ∷ codes "Seck" ∷ proof_dir)
    pub host_model : FileProved (codes "HostModel.lean" ∷ codes "Seck" ∷ proof_dir)
    pub reader_model : FileProved (codes "ReaderModel.lean" ∷ codes "Seck" ∷ proof_dir)

  -- `seck verify-proof` succeeds exactly if the proof's directory is found above the binary, `lake build`
  -- succeeds in it, and none of IOBoundary, Correspondence, HostModel and ReaderModel has a line, other
  -- than one that starts as a comment, in which sorry or admit stands.
  pub verify_proof_iff : (verify_proof m ≡ ok tt) ↔ Verified
  unfolding verify_proof
  verify_proof_iff = (
    λ h.
        let (exe, e₁, h₁) = bind-eq-ok (or_error no_exe m.current_exe) _ h in
        let (dir, e₂, h₂) = bind-eq-ok (or_error no_proof_dir (find_proof_dir m exe)) _ h₁ in
        let (out, e₃, h₃) = bind-eq-ok (or_error no_lake (m.lake_build dir)) _ h₂ in
        let (success, scanned) =
          guard-eq-ok out.success (build_failed out) (scan_files m dir load_bearing) h₃ in
        let files = (scan_files_iff dir load_bearing).0 scanned in
        record {
          exe = exe;
          proof_dir = dir;
          out = out;
          exe_is = or_error-eq-ok no_exe _ e₁;
          found = or_error-eq-ok no_proof_dir _ e₂;
          built = or_error-eq-ok no_lake _ e₃;
          success_is = success;
          io_boundary = files.0;
          correspondence = files.1.0;
          host_model = files.1.1.0;
          reader_model = files.1.1.1.0;
        },
    λ v.
        rw (v.exe_is, v.found, v.built, v.success_is)
          ((scan_files_iff v.proof_dir load_bearing).1
            (v.io_boundary, (v.correspondence, (v.host_model, (v.reader_model, tt))))),
  )
