-- ===== src/Queue.antt =====
-- queue: lines, topics and the queue over them.
pub mod Line
pub mod Deps
pub mod LineData
pub mod Topic
pub mod UnitedQueue
pub mod Stats
pub mod Interface
