-- ===== src/Codex.antt =====
-- internal/codex: a session with the Codex app server, one JSON message to a line.
pub mod Types
pub mod Payload
pub mod Answers
pub mod Directory
pub mod Messages
pub mod Session
