-- ===== src/Infer.antt =====
-- The backends of crates/seck-infer that speak a protocol: `Ollama` (src/ollama.rs) and `Mlx`
-- (src/mlx.rs). The stub stands with the reader.
pub mod Ollama
pub mod Http
pub mod Served
pub mod Mlx
pub mod Lines
mod Runs
