-- ===== src/Sched/ListQueue.antt =====
-- The list-based classes: their run queue as a sequence, and the contract that both keep.
pub mod Defs
pub mod Moves
pub mod Contract
pub mod Classes
pub mod Turn
pub mod Policies
