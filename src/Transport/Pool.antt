-- ===== src/Transport/Pool.antt =====
-- crates/qvs-transport/src/pool.rs: `PeerConnection` and `ConnectionPool`.
pub mod Defs
pub mod Keys
pub mod Limit
pub mod Admit
pub mod Idle
mod Tests
