-- ===== src/Orchestrator/Invariant.antt =====
-- What holds of the scheduler's state (internal/orchestrator/state.go) between two operations.
pub mod Fits
pub mod Dispatch
pub mod Events
pub mod Retry
pub mod Reconcile
pub mod Polling
