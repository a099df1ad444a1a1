-- ===== src/Sched/Class.antt =====
-- struct sched_class of kern/schedule/sched.h: what a scheduling policy implements. `none` is a
-- failed assertion, or a trap, which stops the kernel.
use os_lab.Base.{Ptr, Option}
use os_lab.Sched.State.{Kernel}

pub record SchedClass : Type 0 where
  pub init : Kernel → Kernel
  pub enqueue : Ptr → Kernel → Option Kernel
  pub dequeue : Ptr → Kernel → Option Kernel
  pub pick_next : Kernel → Option (Ptr × Kernel)
  pub proc_tick : Ptr → Kernel → Kernel
