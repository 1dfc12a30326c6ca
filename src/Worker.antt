-- ===== src/Worker.antt =====
-- internal/cli/runtime.go: the runs of the runtime.
pub mod Prompt
pub mod Events
pub mod Run
