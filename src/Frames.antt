-- ===== src/Frames.antt =====
-- The package frames.
pub mod Ack
pub mod Control
pub mod StopWaiting
pub mod Stream
pub mod Progress
