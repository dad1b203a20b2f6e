-- ===== src/Worker.antt =====
-- The learning worker, pk-learning-worker/src/main.rs.
pub mod Backoff
pub mod Disk
pub mod Queue
pub mod Operation
pub mod Payload
pub mod Receipt
pub mod Jobs
pub mod Commands
pub mod Survival
pub mod Accepted
pub mod Quarantine
pub mod Run
pub mod Reconcile
pub mod Staleness
pub mod Health
pub mod Duration
