-- ===== src/EventEngine.antt =====
-- event_engine/: events that boost nodes for a time.
pub mod EventDb
pub mod EventMatcher
