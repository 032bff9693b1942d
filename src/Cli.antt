-- ===== src/Cli.antt =====
-- The commands of the `seck` binary, crates/seck-cli.
pub mod Analyze
pub mod EndToEnd
pub mod EndToEndB
pub mod Refused
pub mod Printed
pub mod AuditLog
pub mod VerifyProof
pub mod PairRun
pub mod Runs
mod SplitRuns
