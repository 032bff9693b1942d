-- ===== src/Models.antt =====
-- Model files: the manifest and the choice of a model (crates/seck-models), the download of one
-- (crates/seck-host-net) and the command `models` (crates/seck-cli/src/models.rs).
pub mod Hosts
pub mod Download
pub mod Recommend
pub mod Command
pub mod Laws
mod Runs
