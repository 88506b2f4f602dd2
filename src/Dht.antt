-- ===== src/Dht.antt =====
-- crates/qvs-dht: the DHT node, with its routing table, its messages and its tokens.
pub mod Bucket
pub mod Table
pub mod Rpc
pub mod Token
pub mod Krpc
pub mod Node
mod Tests
