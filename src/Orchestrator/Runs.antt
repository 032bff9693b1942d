-- ===== src/Orchestrator/Runs.antt =====
-- Runs of the orchestrator, and its theorems at concrete inputs.
use seck.Base.{◌≡◌, refl, true, false, [], ◌∷◌}
use seck.Base.Outcome.{err}
use seck.Base.Strings.{codes}
use seck.Orchestrator.Descriptors.{io}
use seck.Orchestrator.Spawn.{start_reader}
use seck.Orchestrator.Run.{Child}
use seck.Orchestrator.Split.{IsSplit, start_pair-IsSplit}
use seck.Orchestrator.Posix.{
  search_free, posix, fresh, fresh-HasStdio, two_readers, start_pair-fresh,
}

-- A program that is not there
start_no_program :
    start_reader (record posix { can_exec = λ b. false }) (codes "seck-reader") fresh ≡ err io
unfolding start_reader search_free
start_no_program = refl

start_pair-IsSplit_example : IsSplit fresh two_readers
start_pair-IsSplit_example =
    start_pair-IsSplit posix (codes "seck-reader") (codes "seck-reader-priv") fresh two_readers
      fresh-HasStdio (start_pair-fresh (codes "seck-reader") (codes "seck-reader-priv"))

-- A child that answers `{}` to a stream that is not empty.
abbrev answers_object : Child
answers_object = record {
  writes = λ s. codes "{}";
  succeeds = λ s. elim s [ [] ↦ false | b ∷ rest ↦ true ];
}
