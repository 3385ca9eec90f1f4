-- ===== src/Shared.antt =====
-- The package that the coordinator and the services share (packages/shared).
pub mod Types
pub mod Errors
pub mod Exec
pub mod Retry
pub mod Db
pub mod Cache
pub mod Idempotency
pub mod Service
pub mod Http
pub mod Params
