-- ===== src/Api/Admin/Revenue.antt =====
-- The order of the revenue paths.
