-- ===== src/Cli/VerifyProof/Runs.antt =====
-- Runs of `verify-proof`, and its theorem at a concrete input.
use seck.Base.{◌≡◌, ◌↔◌, refl, true, false, some, [], ◌∷◌, equal, Bytes}
use seck.Base.Outcome.{ok, err}
use seck.Base.Strings.{codes}
use seck.Cli.VerifyProof.{Machine, has_sorry, verify_proof}
use seck.Cli.VerifyProof.Sound.{Verified, verify_proof_iff}

abbrev machine : Bytes → Bytes → Machine
machine lakefile body = record {
  current_exe = some (codes "seck" ∷ codes "bin" ∷ codes "src" ∷ []);
  is_file = λ p. elim p [ [] ↦ false | n ∷ ns ↦ equal n lakefile ];
  lake_build = λ dir. some (record { success = true; stdout = []; stderr = [] });
  read_to_string = λ p. some body;
}

abbrev proved : Machine
proved = machine (codes "lakefile.toml") (codes "-- sorry\nexact rfl")

refused :
    verify_proof (machine (codes "lakefile.toml") (codes "-- sorry\nexact sorry"))
    ≡ err (
        has_sorry
          (codes "IOBoundary.lean" ∷ codes "Seck" ∷ codes "proof" ∷ codes "bin" ∷ codes "src" ∷ [])
          2)
unfolding verify_proof equal
refused = refl

verify_proof_iff_example : (verify_proof proved ≡ ok tt) ↔ Verified proved
verify_proof_iff_example = verify_proof_iff proved
