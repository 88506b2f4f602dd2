-- ===== src/Stream/Buffer.antt =====
-- crates/qvs-stream/src/buffer.rs: `RingBuffer`. The two methods that answer in floating point
-- (`buffered_duration`, `filled_percentage`) are left out.
pub mod Ranges
pub mod Defs
pub mod Merge
pub mod Coverage
pub mod ReadWrite
pub mod Slide
mod Tests
