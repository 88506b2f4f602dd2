-- ===== src/Transport/PeerWire.antt =====
-- crates/qvs-transport/src/peer_wire.rs: `PeerWireProtocol`, the state of one peer connection.
-- A method that takes `&mut self` returns the new record. The `u64` counters wrap.
pub mod State
pub mod Machine
pub mod Choking
pub mod Ready
mod Tests
