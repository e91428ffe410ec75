-- ===== src/Examples.antt =====
-- The statements at concrete requests, configurations and tokens.
pub mod Samples
pub mod Callers
pub mod Requests
pub mod Handling
pub mod Starting
pub mod Connections
pub mod Schedules
pub mod Documents
pub mod Guarded
pub mod Budgets
