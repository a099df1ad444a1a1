-- ===== src/Sched/Pool.antt =====
-- The classes that keep the ready processes in a skew heap.
pub mod Defs
pub mod Hpf
pub mod Sjf
pub mod Stride
pub mod Queue
pub mod Contract
pub mod Classes
pub mod Agree
pub mod Policy
pub mod Keys
pub mod Window
pub mod Best
pub mod Turn
