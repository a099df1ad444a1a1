-- ===== src/Sched/Pool/Hpf.antt =====
-- kern/schedule/default_sched_hpf.c: the highest priority first, then the lowest pid.
use os_lab.Base.{Ptr, Option, if◌then◌else◌, ltb}
use os_lab.Base.Int.{ltb_ℤ, pos, negsuc}
use os_lab.Sched.State.{Kernel, set_proc, spend_slice}
use os_lab.Sched.Class.{SchedClass}
use os_lab.Sched.Pool.Defs.{ProcCompare, pool_init, pool_enqueue, pool_dequeue, pool_pick_next}

unfoldable pub proc_prio_comp_f : ProcCompare
proc_prio_comp_f procs a b =
    let p = procs a in
    let q = procs b in
    if ltb q.lab6_priority p.lab6_priority
    then negsuc 0
    else if ltb p.lab6_priority q.lab6_priority
    then pos 1
    else if ltb_ℤ p.pid q.pid
    then negsuc 0
    else if ltb_ℤ q.pid p.pid
    then pos 1
    else pos 0

unfoldable pub hpf_init : Kernel → Kernel
unfolding pool_init
hpf_init = pool_init

unfoldable pub hpf_enqueue : Ptr → Kernel → Option Kernel
unfolding pool_enqueue
hpf_enqueue = pool_enqueue proc_prio_comp_f

unfoldable pub hpf_dequeue : Ptr → Kernel → Option Kernel
unfolding pool_dequeue
hpf_dequeue = pool_dequeue proc_prio_comp_f

unfoldable pub hpf_pick_next : Kernel → Option (Ptr × Kernel)
unfolding pool_pick_next
hpf_pick_next = pool_pick_next

unfoldable pub hpf_proc_tick : Ptr → Kernel → Kernel
hpf_proc_tick proc k = set_proc proc (spend_slice (k.procs proc)) k

abbrev pub hpf_sched_class : SchedClass
hpf_sched_class = record {
  init = hpf_init;
  enqueue = hpf_enqueue;
  dequeue = hpf_dequeue;
  pick_next = hpf_pick_next;
  proc_tick = hpf_proc_tick;
}
