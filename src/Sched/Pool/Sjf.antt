-- ===== src/Sched/Pool/Sjf.antt =====
-- kern/schedule/default_sched_sjf.c: the shortest job first, by the priority field as its estimate.
use os_lab.Base.{Ptr, Option, if◌then◌else◌, ltb}
use os_lab.Base.Int.{ltb_ℤ, pos, negsuc}
use os_lab.Sched.State.{Kernel, set_proc, spend_slice}
use os_lab.Sched.Class.{SchedClass}
use os_lab.Sched.Pool.Defs.{ProcCompare, pool_init, pool_enqueue, pool_dequeue, pool_pick_next}

unfoldable pub proc_sjf_comp_f : ProcCompare
proc_sjf_comp_f procs a b =
    let p = procs a in
    let q = procs b in
    if ltb p.lab6_priority q.lab6_priority
    then negsuc 0
    else if ltb q.lab6_priority p.lab6_priority
    then pos 1
    else if ltb_ℤ p.pid q.pid
    then negsuc 0
    else if ltb_ℤ q.pid p.pid
    then pos 1
    else pos 0

unfoldable pub sjf_init : Kernel → Kernel
unfolding pool_init
sjf_init = pool_init

unfoldable pub sjf_enqueue : Ptr → Kernel → Option Kernel
unfolding pool_enqueue
sjf_enqueue = pool_enqueue proc_sjf_comp_f

unfoldable pub sjf_dequeue : Ptr → Kernel → Option Kernel
unfolding pool_dequeue
sjf_dequeue = pool_dequeue proc_sjf_comp_f

unfoldable pub sjf_pick_next : Kernel → Option (Ptr × Kernel)
unfolding pool_pick_next
sjf_pick_next = pool_pick_next

unfoldable pub sjf_proc_tick : Ptr → Kernel → Kernel
sjf_proc_tick proc k = set_proc proc (spend_slice (k.procs proc)) k

abbrev pub sjf_sched_class : SchedClass
sjf_sched_class = record {
  init = sjf_init;
  enqueue = sjf_enqueue;
  dequeue = sjf_dequeue;
  pick_next = sjf_pick_next;
  proc_tick = sjf_proc_tick;
}
