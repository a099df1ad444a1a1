-- ===== src/Sched/Tests.antt =====
-- Concrete states of the scheduler, and the theorems at work on them.
mod Data
mod Lists
mod Pools
mod Kill
