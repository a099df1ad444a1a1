-- ===== src/Sched/Pool/Stride.antt =====
-- kern/schedule/default_sched_stride.c (with USE_SKEW_HEAP): the smallest stride first, where a
-- turn costs BIG_STRIDE / priority.
use os_lab.Base.{Ptr, null, Option, none, some, if◌then◌else◌, ◌==◌, ℕ, ◌+◌, ◌-◌, ◌/◌, ◌%◌, ◌^◌}
use os_lab.Base.Int.{ℤ, pos, negsuc, to_int32}
use os_lab.Sched.State.{Proc, Kernel, set_proc, spend_slice}
use os_lab.Sched.Class.{SchedClass}
use os_lab.Sched.Pool.Defs.{ProcCompare, pool_init, pool_enqueue, pool_dequeue}

abbrev pub big_stride : ℕ
big_stride = 2 ^ 30

-- int32_t c = p->lab6_stride - q->lab6_stride;
abbrev pub stride_diff : (p q : ℕ) → ℤ
stride_diff p q = to_int32 ((p + 2 ^ 32 - q) % 2 ^ 32)

-- c > 0 ? 1 : c == 0 ? 0 : -1
abbrev pub sign : ℤ → ℤ
sign (pos n) = if n == 0 then pos 0 else pos 1
sign (negsuc n) = negsuc 0

unfoldable pub proc_stride_comp_f : ProcCompare
proc_stride_comp_f procs a b = sign (stride_diff (procs a).lab6_stride (procs b).lab6_stride)

unfoldable pub stride_init : Kernel → Kernel
unfolding pool_init
stride_init = pool_init

unfoldable pub stride_enqueue : Ptr → Kernel → Option Kernel
unfolding pool_enqueue
stride_enqueue = pool_enqueue proc_stride_comp_f

unfoldable pub stride_dequeue : Ptr → Kernel → Option Kernel
unfolding pool_dequeue
stride_dequeue = pool_dequeue proc_stride_comp_f

-- proc->lab6_stride += BIG_STRIDE / proc->lab6_priority; for a priority that is not 0: before this,
-- `stride_pick_next` stops at 0, where the division of C is undefined.
unfoldable pub advance : Proc → Proc
advance p = record p { lab6_stride = (p.lab6_stride + big_stride / p.lab6_priority) % 2 ^ 32 }

-- `none` is the division by zero.
unfoldable pub stride_pick_next : Kernel → Option (Ptr × Kernel)
unfolding advance
stride_pick_next k =
    let proc = k.queue.lab6_run_pool in
    if k.queue.proc_num == 0
    then some (null, k)
    else if proc == null
    then some (null, k)
    else if (k.procs proc).lab6_priority == 0
    then none
    else some (proc, set_proc proc (advance (k.procs proc)) k)

unfoldable pub stride_proc_tick : Ptr → Kernel → Kernel
stride_proc_tick proc k = set_proc proc (spend_slice (k.procs proc)) k

abbrev pub stride_sched_class : SchedClass
stride_sched_class = record {
  init = stride_init;
  enqueue = stride_enqueue;
  dequeue = stride_dequeue;
  pick_next = stride_pick_next;
  proc_tick = stride_proc_tick;
}
