-- ===== src/Tracker/Linear.antt =====
-- internal/trackers/linear/reader.go: the tracker that reads Linear.
pub mod Issue
pub mod Names
pub mod Reader
