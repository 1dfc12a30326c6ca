-- ===== src/Orchestrator.antt =====
-- internal/orchestrator: the scheduler, which claims work items, starts and stops their runs, and
-- retries the ones that end.
pub mod State
pub mod Candidates
pub mod Backoff
pub mod Polling
pub mod Dispatch
pub mod Events
pub mod Retry
pub mod Reconcile
pub mod Invariant
pub mod Snapshot
pub mod Service
pub mod Public
