-- ===== src/Packets.antt =====
-- The parts of the package quic that number and assemble packets.
pub mod Generator
pub mod PublicHeader
pub mod Unpacker
pub mod Frames
pub mod Framer
