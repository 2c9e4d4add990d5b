-- ===== src/Recorder.antt =====
-- src/recorder.rs, part by part.
pub mod Queue
pub mod Offset
pub mod Receive
pub mod Mix
pub mod Decode
mod Tests
