-- ===== src/Jobs.antt =====
-- The persistent job system: jobs/queue.py, jobs/worker.py and services/jobs.py over the tables
-- `jobs`, `job_items` and `job_events` of db/models.py.
pub mod Model
pub mod Queue
pub mod Control
pub mod Create
pub mod Worker
mod Precedence
mod Order
mod Inversion
mod Keys
mod Soundness
pub mod System
mod Rows
mod Settlement
mod Items
mod Cancellation
mod Backoff
mod Idempotence
mod ControlEffects
mod Machine
mod Serving
mod Fencing
mod Samples
mod Tests
mod ControlTests
