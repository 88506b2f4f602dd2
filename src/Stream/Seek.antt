-- ===== src/Stream/Seek.antt =====
-- crates/qvs-stream/src/seek.rs: `SeekEngine`.
pub mod Defs
pub mod Pieces
pub mod Keyframe
mod Tests
