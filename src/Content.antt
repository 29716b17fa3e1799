-- ===== src/Content.antt =====
-- content_factory/: the generation of content.
pub mod Blog
pub mod Readability
pub mod QualityGate
