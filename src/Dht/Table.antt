-- ===== src/Dht/Table.antt =====
-- crates/qvs-dht/src/routing.rs: `RoutingTable`.
pub mod Defs
pub mod Index
mod Room
pub mod Own
pub mod Capacity
