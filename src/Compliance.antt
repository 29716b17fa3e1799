-- ===== src/Compliance.antt =====
-- compliance/: what a text must pass before it is published.
pub mod Pii
pub mod Copyright
pub mod Robots
