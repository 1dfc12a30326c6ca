-- ===== src/Config.antt =====
-- internal/config: the runtime settings and their validation.
pub mod Settings
pub mod Validation
pub mod Workflow
pub mod Store
