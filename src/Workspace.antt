-- ===== src/Workspace.antt =====
-- internal/workspace: one directory per work item, here or on a worker host.
pub mod Paths
pub mod Records
pub mod Manager
