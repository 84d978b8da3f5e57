-- ===== src/Handshake.antt =====
-- The package handshake.
pub mod Parameters
