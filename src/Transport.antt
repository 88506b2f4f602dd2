-- ===== src/Transport.antt =====
-- crates/qvs-transport: the peer wire messages, the connection state machine and the scheduler.
pub mod Message
pub mod PeerWire
pub mod Scheduler
pub mod Handshake
pub mod Pool
