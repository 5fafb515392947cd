-- ===== src/Queue.antt =====
-- minisched/queue/queue.go: the scheduling queue.
pub mod Types
pub mod Backoff
pub mod Events
pub mod Ops
