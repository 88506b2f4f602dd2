-- ===== src/Media.antt =====
-- crates/qvs-media: the synchronisation of audio and video.
pub mod Sync
