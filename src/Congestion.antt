-- ===== src/Congestion.antt =====
-- The package congestion: the parts of the congestion controller that have no floating point state.
pub mod PrrSender
pub mod HybridSlowStart
