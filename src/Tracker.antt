-- ===== src/Tracker.antt =====
-- internal/tracker: the reader that the core uses, and its restriction to one item.
pub mod Filter
pub mod Memory
pub mod Linear
