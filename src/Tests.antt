-- ===== src/Tests.antt =====
-- Runs of the models at concrete inputs, and the theorems applied to them.
pub mod Congestion
pub mod Flowcontrol
pub mod PacketNumbers
pub mod Packets
pub mod Receiving
pub mod Sending
pub mod Streams
pub mod Wire
pub mod Framer
pub mod Handshake
