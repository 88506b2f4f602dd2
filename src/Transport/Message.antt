-- ===== src/Transport/Message.antt =====
-- crates/qvs-transport/src/message.rs: the peer wire messages, their encoding and their parsers.
-- A `u8` buffer is a list of numbers; every index is read after the length test that guards it.
pub mod MsgId
pub mod Parse
pub mod RoundTrip
pub mod Framing
mod Tests
