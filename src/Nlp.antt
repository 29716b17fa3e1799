-- ===== src/Nlp.antt =====
-- nlp/: entities.
pub mod Normalizer
