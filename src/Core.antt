-- ===== src/Core.antt =====
-- crates/qvs-core: the error type and the shared data structures.
pub mod Error
pub mod Outcome
pub mod Hex
pub mod InfoHash
pub mod SimpleBencode
pub mod Bitfield
pub mod NodeId
pub mod Peer
pub mod HashMap
pub mod Meta
mod Tests
