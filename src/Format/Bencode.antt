-- ===== src/Format/Bencode.antt =====
-- crates/qvs-format/src/bencode.rs: `BencodeValue`.
pub mod Outcome
pub mod Defs
pub mod Decode
pub mod Order
pub mod Text
pub mod Rounds
pub mod RoundTrip
pub mod Total
pub mod Wrap
mod Tests
