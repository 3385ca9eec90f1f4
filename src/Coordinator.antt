-- ===== src/Coordinator.antt =====
-- The coordinator (services/coordinator/src).
pub mod Repository
pub mod Saga
pub mod Ingest
pub mod Queries
pub mod Worker
pub mod Api
pub mod Delivery
