-- ===== src/Middleend.antt =====
-- The passes of the middle end: src/middleend.
pub mod GuardSimplification
pub mod Worklist
pub mod DeadStatePruning
pub mod EventQueueBound
pub mod Livelock
pub mod DeterminismEnforcement
pub mod PriorityConflict
