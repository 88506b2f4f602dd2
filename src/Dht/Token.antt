-- ===== src/Dht/Token.antt =====
-- crates/qvs-dht/src/token.rs: `TokenManager`.
pub mod Defs
pub mod Lifetime
mod Tests
