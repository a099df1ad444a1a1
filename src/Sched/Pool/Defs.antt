-- ===== src/Sched/Pool/Defs.antt =====
-- What the three heap-based classes share: default_sched_hpf.c, default_sched_sjf.c and
-- default_sched_stride.c differ in the comparison, and stride also in the pick.
use os_lab.Base.{
  if◌then◌else◌, Ptr, null, ℕ, ◌+◌, Option, some, ◌>>=◌, ◌>>◌, assert, ◌==◌, ◌&&◌, ltb, update,
}
use os_lab.Libs.Links.{list_init}
use os_lab.Libs.SkewHeap.Defs.{Compare, skew_heap_insert, skew_heap_remove}
use os_lab.Sched.State.{Proc, Kernel, run_list, run_queue, refill_slice, increment, decrement}

-- A comparison reads the processes at the two addresses.
abbrev pub ProcCompare : Type 0
ProcCompare = (Ptr → Proc) → Compare

-- Enough rounds for a merge of all the queue and one more process.
abbrev pub fuel : Kernel → ℕ
fuel k = k.queue.proc_num + 2

unfoldable pub pool_init : Kernel → Kernel
pool_init k = record k {
  run_links = list_init run_list k.run_links;
  queue = record (k.queue) { lab6_run_pool = null; proc_num = 0 };
}

unfoldable pub pool_enqueue : ProcCompare → Ptr → Kernel → Option Kernel
pool_enqueue comp proc k = do
  (root, nodes) ← skew_heap_insert (comp k.procs) (fuel k) k.queue.lab6_run_pool proc k.run_nodes
  some (record k {
    run_nodes = nodes;
    procs = update k.procs proc (record (k.procs proc) {
      time_slice = refill_slice k.queue.max_time_slice (k.procs proc).time_slice;
      rq = run_queue;
    });
    queue = record (k.queue) { lab6_run_pool = root; proc_num = increment k.queue.proc_num };
  })

unfoldable pub pool_dequeue : ProcCompare → Ptr → Kernel → Option Kernel
pool_dequeue comp proc k = do
  assert (((k.procs proc).rq == run_queue) && ltb 0 k.queue.proc_num)
  (root, nodes) ← skew_heap_remove (comp k.procs) (fuel k) k.queue.lab6_run_pool proc k.run_nodes
  some (record k {
    run_nodes = nodes;
    queue = record (k.queue) { lab6_run_pool = root; proc_num = decrement k.queue.proc_num };
  })

unfoldable pub pool_pick_next : Kernel → Option (Ptr × Kernel)
pool_pick_next k =
    if k.queue.lab6_run_pool == null then some (null, k) else some (k.queue.lab6_run_pool, k)
