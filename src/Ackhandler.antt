-- ===== src/Ackhandler.antt =====
-- The package ackhandler.
pub mod History
pub mod Received
pub mod StopWaiting
pub mod Sent
