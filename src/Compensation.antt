-- ===== src/Compensation.antt =====
-- The durable tasks that repair a failed inventory call: the table, and the worker of
-- services/worker-service.
pub mod Tasks
pub mod Retry
pub mod Worker
pub mod Letters
