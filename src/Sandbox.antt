-- ===== src/Sandbox.antt =====
-- The container sandbox of approach C, crates/seck-sandbox/src/container.rs.
pub mod Container
pub mod Lockdown
pub mod Confinement
pub mod Laws
mod Runs
