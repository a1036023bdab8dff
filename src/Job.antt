-- ===== src/Job.antt =====
-- The job system (modules/job): rows that a scheduler runs with retries, and the calls that a
-- message stands for.
pub mod Entities
pub mod Repository
pub mod Processor
pub mod Service
pub mod Creation
pub mod Callbacks
pub mod Backoff
pub mod Runs
pub mod Scheduling
pub mod History
pub mod Consumer
pub mod Consumption
pub mod Reads
