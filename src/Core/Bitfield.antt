-- ===== src/Core/Bitfield.antt =====
-- crates/qvs-core/src/types.rs: `Bitfield` and `BitfieldIter`. The `f64` of `completion` is left out.
pub mod Bits
pub mod Defs
pub mod Update
pub mod Iter
