-- ===== src/Streams.antt =====
-- The parts of the package quic that keep the streams of a session.
pub mod Map
