-- ===== src/Ingestion.antt =====
-- ingestion/: the resilience primitives and the collector template.
pub mod Breaker
pub mod Bucket
pub mod DeadLetters
pub mod Collector
pub mod Bootstrap
