-- ===== src/Flowcontrol.antt =====
-- The package flowcontrol.
pub mod Controller
pub mod Manager
