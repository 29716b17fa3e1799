-- ===== src/Decision.antt =====
-- The code of decision_engine.
pub mod Selector
