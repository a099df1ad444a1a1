-- ===== src/Sched/Contract.antt =====
-- What the framework relies on in a scheduling class: an abstract queue of ready processes, which
-- each operation of the class implements. The classes fill this record in; `schedule` is proved
-- from it alone.
pub mod Defs
pub mod Switch
pub mod Schedule
pub mod Wakeup
