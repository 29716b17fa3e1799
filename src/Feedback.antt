-- ===== src/Feedback.antt =====
-- feedback_engine/: what is learnt from published contents.
pub mod Attribution
pub mod Metrics
pub mod Weights
