-- ===== src/Minisched.antt =====
-- minisched/minisched.go: the scheduling cycle and its extension points.
pub mod Types
pub mod Filters
pub mod Select
pub mod Scores
pub mod Permits
pub mod Cycle
pub mod Initialize
pub mod Handlers
pub mod Run
pub mod System
pub mod Retried
