-- ===== src/Web.antt =====
-- The web client (web/src/app).
pub mod OrderList
