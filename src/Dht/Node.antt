-- ===== src/Dht/Node.antt =====
-- crates/qvs-dht/src/node.rs: `DhtNode`, the loop that reads packets and the announcements it sends.
pub mod Defs
pub mod PingLoop
pub mod Announcement
mod Tests
