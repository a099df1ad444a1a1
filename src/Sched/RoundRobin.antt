-- ===== src/Sched/RoundRobin.antt =====
-- kern/schedule/default_sched.c: round robin over the list of ready processes.
use os_lab.Base.{Ptr, null, not, ◌&&◌, Option, some, update, ◌==◌, ◌>>◌, assert, if◌then◌else◌}
use os_lab.Libs.Links.{list_init, list_add_before, list_del_init, list_next, list_empty}
use os_lab.Sched.State.{
  Kernel, set_proc, increment, decrement, run_list, run_queue, refill_slice, spend_slice,
}
use os_lab.Sched.Class.{SchedClass}

unfoldable pub rr_init : Kernel → Kernel
rr_init k = record k {
  run_links = list_init run_list k.run_links;
  queue = record (k.queue) { proc_num = 0 };
}

unfoldable pub rr_enqueue : Ptr → Kernel → Option Kernel
rr_enqueue proc k = do
  assert (list_empty k.run_links proc)
  some (record k {
    run_links = list_add_before run_list proc k.run_links;
    procs = update k.procs proc (record (k.procs proc) {
      time_slice = refill_slice k.queue.max_time_slice (k.procs proc).time_slice;
      rq = run_queue;
    });
    queue = record (k.queue) { proc_num = increment k.queue.proc_num };
  })

unfoldable pub rr_dequeue : Ptr → Kernel → Option Kernel
rr_dequeue proc k = do
  assert (not (list_empty k.run_links proc) && ((k.procs proc).rq == run_queue))
  some (record k {
    run_links = list_del_init proc k.run_links;
    queue = record (k.queue) { proc_num = decrement k.queue.proc_num };
  })

unfoldable pub rr_pick_next : Kernel → Option (Ptr × Kernel)
rr_pick_next k =
    let le = list_next k.run_links run_list in some (if le == run_list then null else le, k)

unfoldable pub rr_proc_tick : Ptr → Kernel → Kernel
rr_proc_tick proc k = set_proc proc (spend_slice (k.procs proc)) k

abbrev pub default_sched_class : SchedClass
default_sched_class = record {
  init = rr_init;
  enqueue = rr_enqueue;
  dequeue = rr_dequeue;
  pick_next = rr_pick_next;
  proc_tick = rr_proc_tick;
}
