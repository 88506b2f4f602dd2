-- ===== src/Dht/Krpc.antt =====
-- crates/qvs-dht/src/krpc.rs: `KademliaRpc`, which answers the messages of other nodes.
pub mod Defs
pub mod Announce
pub mod Limit
pub mod Search
pub mod Lookup
mod Tests
