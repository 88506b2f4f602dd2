-- ===== src/Transport/Handshake.antt =====
-- crates/qvs-transport/src/handshake.rs: `Handshake`. Its arrays are lists of their size.
pub mod Defs
pub mod RoundTrip
mod Tests
