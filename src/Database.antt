-- ===== src/Database.antt =====
-- database/: the adapter of the databases.
pub mod Adapter
pub mod GraphRepo
