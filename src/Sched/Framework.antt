-- ===== src/Sched/Framework.antt =====
-- kern/schedule/sched.c: the framework, over any scheduling class, and `proc_run` of
-- kern/process/proc.c. The calls run with interrupts off, so each is one step.
use os_lab.Base.{
  ◌+◌, ◌/◌, ◌^◌, ℕ, Ptr, null, true, false, not, Option, some, ◌==◌, ◌>>=◌, ◌>>◌, assert,
  if◌then◌else◌,
}
use os_lab.Libs.Links.{list_init}
use os_lab.Sched.State.{
  Kernel, proc_runnable, is_runnable, is_zombie, set_proc, increment, timer_list,
}
use os_lab.Sched.Class.{SchedClass}

-- lsatp(pgdir), for a pgdir below 2 ^ 64: the mode bit and the number of the page.
abbrev pub lsatp : ℕ → ℕ
lsatp pgdir = 2 ^ 63 + pgdir / 2 ^ 12

-- `switch_to` goes on in the other process: what stays is who runs, and on which page table.
unfoldable pub proc_run : Ptr → Kernel → Kernel
proc_run proc k =
    if proc == k.current then k else record k { current = proc; satp = lsatp (k.procs proc).pgdir }

-- MAX_TIME_SLICE
abbrev pub max_time_slice : ℕ
max_time_slice = 5

module _ (cls : SchedClass) where
  unfoldable pub sched_class_enqueue : Ptr → Kernel → Option Kernel
  sched_class_enqueue proc k = if proc == k.idleproc then some k else cls.enqueue proc k

  unfoldable pub sched_class_dequeue : Ptr → Kernel → Option Kernel
  sched_class_dequeue proc k = cls.dequeue proc k

  unfoldable pub sched_class_pick_next : Kernel → Option (Ptr × Kernel)
  sched_class_pick_next k = cls.pick_next k

  unfoldable pub sched_class_proc_tick : Ptr → Kernel → Kernel
  sched_class_proc_tick proc k =
      if proc == k.idleproc
      then set_proc proc (record (k.procs proc) { need_resched = true }) k
      else cls.proc_tick proc k

  unfoldable pub sched_init : Kernel → Kernel
  sched_init k = cls.init (record k {
    timer_links = list_init timer_list k.timer_links;
    queue = record (k.queue) { max_time_slice = max_time_slice };
  })

  unfoldable pub wakeup_proc : Ptr → Kernel → Option Kernel
  unfolding sched_class_enqueue
  wakeup_proc proc k = do
    assert (not (is_zombie (k.procs proc).state))
    let woken = set_proc proc (record (k.procs proc) { state = proc_runnable; wait_state = 0 }) k
    if is_runnable (k.procs proc).state
        then some k
        else if proc == k.current
        then some woken
        else sched_class_enqueue proc woken

  -- The choice of `schedule`: the class's pick, out of the queue, or the idle process.
  unfoldable pub take_next : Kernel → Option (Ptr × Kernel)
  unfolding sched_class_dequeue sched_class_pick_next
  take_next k = do
    (next, k') ← sched_class_pick_next k
    if next == null
        then some (k'.idleproc, k')
        else do k'' ← sched_class_dequeue next k'; some (next, k'')

  -- The running process goes back to the queue if it can go on.
  unfoldable pub put_back : Kernel → Option Kernel
  unfolding sched_class_enqueue
  put_back k =
      let p = record (k.procs k.current) { need_resched = false } in
      let k' = set_proc k.current p k in
      if is_runnable p.state then sched_class_enqueue k.current k' else some k'

  unfoldable pub schedule : Kernel → Option Kernel
  unfolding put_back take_next proc_run
  schedule k = do
    k' ← put_back k
    (next, k'') ← take_next k'
    some (
        proc_run next
          (set_proc next (record (k''.procs next) { runs = increment (k''.procs next).runs }) k''))
