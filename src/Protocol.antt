-- ===== src/Protocol.antt =====
-- The package protocol.
pub mod PacketNumber
pub mod Parameters
pub mod Version
