-- ===== src/Host.antt =====
-- The host's side of an analysis, crates/seck-host: the walk over the target (src/walker.rs), the
-- reading of the files (src/fileset.rs), and what the reader receives of them.
pub mod Walker
pub mod Fileset
pub mod Delivery
pub mod Runs
