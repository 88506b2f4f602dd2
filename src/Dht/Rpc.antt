-- ===== src/Dht/Rpc.antt =====
-- crates/qvs-dht/src/rpc.rs: the messages between DHT nodes.
pub mod Defs
pub mod Decode
pub mod RoundTrip
pub mod Message
pub mod Mismatch
mod Tests
