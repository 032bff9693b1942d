-- ===== src/Bench.antt =====
-- The resistance of models to injected instructions: the canaries of crates/seck-canaries, and the
-- scores and the table of crates/seck-bench.
pub mod Canaries
pub mod Scorer
pub mod Runner
pub mod Axes
pub mod Tally
pub mod Table
mod Runs
