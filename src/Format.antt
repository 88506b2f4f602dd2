-- ===== src/Format.antt =====
-- crates/qvs-format: the encodings of the metadata.
pub mod Bencode
pub mod QvsFile
pub mod Uri
pub mod Cache
