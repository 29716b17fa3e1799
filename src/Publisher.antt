-- ===== src/Publisher.antt =====
-- publisher/: the saga that drives a publication.
pub mod Saga
