-- ===== src/Examples.antt =====
-- The theorems at concrete values.
pub mod Values
pub mod Calls
pub mod Stores
pub mod Sagas
pub mod Jobs
pub mod Interleaved
pub mod Workers
pub mod Deliveries
pub mod Views
