-- ===== src/Runner.antt =====
-- internal/runner: where a run goes, and the command that is started for it.
pub mod HostSelection
pub mod Shell
pub mod Command
