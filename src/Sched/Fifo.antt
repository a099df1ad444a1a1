-- ===== src/Sched/Fifo.antt =====
-- kern/schedule/default_sched_fifo.c: first come, first served, with no preemption.
use os_lab.Base.{Ptr, null, not, ◌&&◌, Option, some, update, ◌==◌, ltb, ◌>>◌, assert, if◌then◌else◌}
use os_lab.Libs.Links.{list_init, list_add_before, list_del_init, list_next, list_empty}
use os_lab.Sched.State.{Kernel, increment, decrement, run_list, run_queue}
use os_lab.Sched.Class.{SchedClass}

unfoldable pub fifo_init : Kernel → Kernel
fifo_init k = record k {
  run_links = list_init run_list k.run_links;
  queue = record (k.queue) { lab6_run_pool = null; proc_num = 0 };
}

unfoldable pub fifo_enqueue : Ptr → Kernel → Option Kernel
fifo_enqueue proc k = do
  assert (list_empty k.run_links proc)
  some (record k {
    run_links = list_add_before run_list proc k.run_links;
    procs = update k.procs proc (record (k.procs proc) { rq = run_queue });
    queue = record (k.queue) { proc_num = increment k.queue.proc_num };
  })

unfoldable pub fifo_dequeue : Ptr → Kernel → Option Kernel
fifo_dequeue proc k = do
  assert (((k.procs proc).rq == run_queue) && ltb 0 k.queue.proc_num)
  assert (not (list_empty k.run_links proc))
  some (record k {
    run_links = list_del_init proc k.run_links;
    queue = record (k.queue) { proc_num = decrement k.queue.proc_num };
  })

unfoldable pub fifo_pick_next : Kernel → Option (Ptr × Kernel)
fifo_pick_next k =
    let le = list_next k.run_links run_list in some (if le == run_list then null else le, k)

unfoldable pub fifo_proc_tick : Ptr → Kernel → Kernel
fifo_proc_tick proc k = k

abbrev pub fifo_sched_class : SchedClass
fifo_sched_class = record {
  init = fifo_init;
  enqueue = fifo_enqueue;
  dequeue = fifo_dequeue;
  pick_next = fifo_pick_next;
  proc_tick = fifo_proc_tick;
}
