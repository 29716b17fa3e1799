-- ===== src/Scoring.antt =====
-- scoring_engine/: the scores by which contents are chosen.
pub mod Ranking
pub mod Probability
