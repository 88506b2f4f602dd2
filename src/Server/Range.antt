-- ===== src/Server/Range.antt =====
-- crates/qvs-local-server/src/range.rs: `RangeHeader`. Text is a list of code points.
pub mod Defs
pub mod Bounds
pub mod RoundTrip
mod Tests
