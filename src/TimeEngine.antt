-- ===== src/TimeEngine.antt =====
-- time_engine/: how scores move in time.
pub mod Trend
