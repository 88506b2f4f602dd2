-- ===== src/Stream.antt =====
-- crates/qvs-stream: the ring buffer behind the player, and the playback state.
pub mod Buffer
pub mod Seek
pub mod Playback
