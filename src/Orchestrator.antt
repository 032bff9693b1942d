-- ===== src/Orchestrator.antt =====
-- How the host runs the readers, crates/seck-host/src/orchestrator.rs: the descriptors that it
-- makes and hands over, and a run from the file set to the report.
pub mod Descriptors
pub mod Spawn
pub mod Run
pub mod Delivery
mod Pipes
pub mod Wiring
pub mod Split
pub mod Posix
mod Runs
