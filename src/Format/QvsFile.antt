-- ===== src/Format/QvsFile.antt =====
-- crates/qvs-format/src/qvs_file.rs: `QvsFile`.
pub mod Defs
pub mod Entries
pub mod RoundTrip
mod Tests
