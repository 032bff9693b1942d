-- ===== src/Secrets.antt =====
-- Buffers with secrets and bytes that are not trusted: crates/seck-mem-hard/src/lib.rs and
-- crates/seck-taint/src/lib.rs.
pub mod Locked
pub mod Taint
mod Runs
