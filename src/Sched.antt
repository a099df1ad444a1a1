-- ===== src/Sched.antt =====
-- The scheduler (kern/schedule/): its state, the framework over a scheduling class, and the classes.
pub mod State
pub mod Class
pub mod Framework
pub mod Ticks
pub mod Start
mod Tests
pub mod ListQueue
pub mod Contract
pub mod RoundRobin
pub mod Fifo
pub mod Pool
