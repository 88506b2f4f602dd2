-- ===== src/Stream/Playback.antt =====
-- crates/qvs-stream/src/playback.rs: `StreamState`, `StreamStats` and `MediaStream`.
pub mod Defs
pub mod Coherent
mod Tests
