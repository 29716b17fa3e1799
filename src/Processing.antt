-- ===== src/Processing.antt =====
-- The code of processing.
pub mod Signatures
pub mod Deduplicator
