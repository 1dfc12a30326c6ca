-- ===== src/Tests.antt =====
-- Runs on concrete inputs: a world for the scheduler, and each theorem at an input that meets its
-- hypotheses.
mod World
mod Scheduler
mod Orchestrator
mod Runner
mod Tracker
mod Codex
mod Linear
mod Files
mod Worker
mod Workspace
mod Config
