-- ===== src/Pipeline/Seed.antt =====
-- crates/seck-pipeline/src/seed.rs: the seed of a pass.
use seck.Base.{ℕ, ◌++◌, take, Bytes}
use seck.Base.Strings.{codes}
use seck.Wire.Endian.{from_le_bytes}
use seck.Pipeline.{Library}

pub data PassRole : Type 0 where
  analyst auditor auditor_paranoid judge : PassRole

unfoldable pub tag : PassRole → Bytes
tag analyst = codes "analyst"
tag auditor = codes "auditor"
tag auditor_paranoid = codes "auditor-paranoid"
tag judge = codes "judge"

unfoldable pub derive_pass_seed : Library → Bytes → PassRole → ℕ
unfolding tag
derive_pass_seed lib nonce role = from_le_bytes (take 8 (lib.sha3_256 (nonce ++ tag role)))
