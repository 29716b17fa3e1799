-- ===== src/Experiments.antt =====
-- The code of experiments.
pub mod Manager
