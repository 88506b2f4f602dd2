-- ===== src/Transport/Scheduler.antt =====
-- crates/qvs-transport/src/scheduler.rs: `PieceScheduler`.
pub mod Defs
pub mod Queue
pub mod Order
pub mod Priority
pub mod Peers
mod Tests
