-- ===== src/Format/Uri.antt =====
-- crates/qvs-format/src/uri.rs: the addresses of media.
pub mod Defs
pub mod RoundTrip
mod Tests
