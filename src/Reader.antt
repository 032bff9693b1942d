-- ===== src/Reader.antt =====
-- The readers inside the sandbox: crates/seck-reader in both of its modes, the messages of
-- crates/seck-reader-ipc, and crates/seck-reader-priv.
pub mod Prompt
pub mod Ipc
pub mod Delivery
pub mod Priv
pub mod Analyze
pub mod Process
pub mod PrivProcess
pub mod Schema
pub mod Split
pub mod Coding
pub mod Handover
pub mod Quotes
pub mod Runs
pub mod ProcessRuns
