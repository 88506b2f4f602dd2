-- ===== src/Dht/Bucket.antt =====
-- crates/qvs-dht/src/routing.rs: `KBucket`.
pub mod Defs
pub mod Insert
pub mod Unique
