-- ===== src/Orchestration.antt =====
-- orchestration/: the flows that put the parts together.
pub mod Realtime
pub mod Daily
