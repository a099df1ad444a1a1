-- ===== src/Sched/Pool/Classes.antt =====
-- The three heap-based classes fill the contract in.
use os_lab.Libs.SkewHeap.Tree.{Tree, leaf, node}
use os_lab.Sched.Pool.Queue.{top_lem, IsPool}
use os_lab.Sched.Pool.Defs.{pool_pick_next}
use os_lab.Sched.Contract.Switch.{Keeps-refl}
use os_lab.Sched.Pool.Stride.{
  proc_stride_comp_f, stride_sched_class, stride_dequeue, advance, stride_pick_next, stride_enqueue,
}
use os_lab.Sched.Pool.Sjf.{
  proc_sjf_comp_f, sjf_sched_class, sjf_pick_next, sjf_dequeue, sjf_enqueue,
}
use os_lab.Base.{false, ==_ne, ◌==◌, some, ◌≡◌, arith, Ptr, null, refl}
use os_lab.Sched.State.{set_proc, Kernel}
use os_lab.Sched.Pool.Contract.{Picked, IsPoolClass}
use os_lab.Sched.Pool.Hpf.{
  proc_prio_comp_f, hpf_pick_next, hpf_dequeue, hpf_enqueue, hpf_sched_class,
}

unpicked : (k : Kernel) (n : Ptr) → Picked k k n
unpicked k n = record {
  keeps = Keeps-refl k;
  nodes_same = refl;
  queue_same = refl;
  pid_same = λ q. refl;
  rq_same = λ q. refl;
  priority_same = λ q. refl;
  stride_other = λ q ne. refl;
}

pick_null : (k : Kernel) → IsPool k leaf → pool_pick_next k ≡ some (null, k)
unfolding pool_pick_next
pick_null k is = rw (top_lem k leaf is)

pick_root :
    (k : Kernel) (l : Tree) (x : Ptr) (r : Tree)
    → IsPool k (node l x r)
    → pool_pick_next k ≡ some (x, k)
unfolding pool_pick_next
pick_root k l x r is = rw (top_lem k (node l x r) is, ==_ne x null is.heap.shape.1)

pub hpf_IsPoolClass : IsPoolClass hpf_sched_class proc_prio_comp_f
unfolding hpf_enqueue hpf_dequeue hpf_pick_next
hpf_IsPoolClass = record {
  picked = λ n k. k;
  picked_lem = unpicked;
  enqueue_is = λ p k. refl;
  dequeue_is = λ p k. refl;
  pick_empty = pick_null;
  pick_top = pick_root;
}

pub sjf_IsPoolClass : IsPoolClass sjf_sched_class proc_sjf_comp_f
unfolding sjf_enqueue sjf_dequeue sjf_pick_next
sjf_IsPoolClass = record {
  picked = λ n k. k;
  picked_lem = unpicked;
  enqueue_is = λ p k. refl;
  dequeue_is = λ p k. refl;
  pick_empty = pick_null;
  pick_top = pick_root;
}

-- The stride class moves the picked process forward.
abbrev pub advanced : Ptr → Kernel → Kernel
advanced n k = set_proc n (advance (k.procs n)) k

advanced-Picked : (k : Kernel) (n : Ptr) → Picked k (advanced n k) n
unfolding advance
advanced-Picked k n = record {
  keeps = record {
    current_same = refl;
    idleproc_same = refl;
    initproc_same = refl;
    satp_same = refl;
    state_same = λ q. ground arith;
    pgdir_same = λ q. ground arith;
  };
  nodes_same = refl;
  queue_same = refl;
  pid_same = λ q. ground arith;
  rq_same = λ q. ground arith;
  priority_same = λ q. ground arith;
  stride_other = λ q ne. ground arith;
}

stride_pick_null : (k : Kernel) → IsPool k leaf → stride_pick_next k ≡ some (null, k)
unfolding stride_pick_next
stride_pick_null k is = rw (is.counted)

pub stride_pick_root :
    (k : Kernel) (l : Tree) (x : Ptr) (r : Tree)
    → IsPool k (node l x r)
    → stride_pick_next k ≡ some (x, advanced x k)
unfolding stride_pick_next
stride_pick_root k l x r is =
    let some_left : (k.queue.proc_num == 0) ≡ false = ground (arith, is.counted) in
    rw (
      some_left,
      top_lem k (node l x r) is,
      ==_ne x null is.heap.shape.1,
      ==_ne (k.procs x).lab6_priority 0 (is.weighted x (ground arith)),
    )

pub stride_IsPoolClass : IsPoolClass stride_sched_class proc_stride_comp_f
unfolding stride_enqueue stride_dequeue
stride_IsPoolClass = record {
  picked = advanced;
  picked_lem = advanced-Picked;
  enqueue_is = λ p k. refl;
  dequeue_is = λ p k. refl;
  pick_empty = stride_pick_null;
  pick_top = stride_pick_root;
}
