-- ===== src/Server.antt =====
-- crates/qvs-local-server: the range header of the HTTP server.
pub mod Range
