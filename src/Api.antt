-- ===== src/Api.antt =====
-- The code of api.
pub mod Auth
pub mod Metrics
pub mod Content
pub mod Admin
pub mod Health
