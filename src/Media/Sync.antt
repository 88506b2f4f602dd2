-- ===== src/Media/Sync.antt =====
-- crates/qvs-media/src/sync.rs: `AudioVideoSync`.
pub mod Defs
pub mod Actions
mod Tests
