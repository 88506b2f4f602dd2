-- ===== src/Format/Cache.antt =====
-- crates/qvs-format/src/cache.rs: `CacheManager`.
pub mod Defs
pub mod Cleanup
pub mod Write
mod Tests
