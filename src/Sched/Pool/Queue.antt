-- ===== src/Sched/Pool/Queue.antt =====
-- The run queue of the heap-based classes as a tree of processes.
use os_lab.Base.{
  ◌+◌, false, length-append, true, ◌≢◌, arith, update, length, has, ◌≡◌, Ptr, null, refl, Ends, ◌<◌,
  ◌^◌,
}
use os_lab.Libs.SkewHeap.Defs.{Nodes, skew_heap_insert}
use os_lab.Libs.SkewHeap.Tree.{Tree, leaf, node, nodes, size, meld}
use os_lab.Libs.SkewHeap.Heap.{IsHeap, Yields, single, insert-Yields}
use os_lab.Libs.SkewHeap.Members.{size-meld, has-meld}
use os_lab.Sched.State.{Kernel, run_queue, refill_slice, increment, decrement}
use os_lab.Sched.Contract.Defs.{SameQueue, Keeps, SameKeys}
use os_lab.Sched.Pool.Defs.{ProcCompare, fuel, pool_enqueue}

pub record IsPool (k : Kernel) (t : Tree) : Type 0 where
  pub heap : IsHeap k.run_nodes k.queue.lab6_run_pool t
  pub counted : k.queue.proc_num ≡ size t
  pub few : size t < 2 ^ 32
  pub bound : (q : Ptr) → has q (nodes t) ≡ true → (k.procs q).rq ≡ run_queue
  pub weighted : (q : Ptr) → has q (nodes t) ≡ true → (k.procs q).lab6_priority ≢ 0

-- A process that can be put in the heap.
pub record HasWeight (k : Kernel) (p : Ptr) : Type 0 where
  pub ne_null : p ≢ null
  pub weight : (k.procs p).lab6_priority ≢ 0

pub IsPool-stable : (k k' : Kernel) (t : Tree) → SameQueue k k' → IsPool k t → IsPool k' t
IsPool-stable k k' t s is = record {
  heap = rw (s.nodes_same, s.queue_same) is.heap;
  counted = rw s.queue_same is.counted;
  few = is.few;
  bound = λ q i. ground (arith, is.bound q, s.rq_same q);
  weighted = λ q i. rw (s.priority_same q) (is.weighted q i);
}

pub HasWeight-stable : (k k' : Kernel) (p : Ptr) → SameQueue k k' → HasWeight k p → HasWeight k' p
HasWeight-stable k k' p s is = record {
  ne_null = is.ne_null;
  weight = rw (s.priority_same p) is.weight;
}

pub length-nodes : (t : Tree) → length (nodes t) ≡ size t
length-nodes leaf = refl
length-nodes (node l x r) =
    omega (arith, length-append {0} (nodes l) (nodes r), length-nodes l, length-nodes r)

abbrev pub top : Tree → Ptr
top leaf = null
top (node l x r) = x

pub top_lem : (k : Kernel) (t : Tree) → IsPool k t → k.queue.lab6_run_pool ≡ top t
top_lem k leaf is = is.heap.shape
top_lem k (node l x r) is = is.heap.shape.0

-- A process enters the heap; the store and its root are what the insertion made of them.
abbrev pub pool_entered : Ptr → Nodes → Ptr → Kernel → Kernel
pool_entered root nodes proc k = record k {
  run_nodes = nodes;
  procs = update k.procs proc (record (k.procs proc) {
    time_slice = refill_slice k.queue.max_time_slice (k.procs proc).time_slice;
    rq = run_queue;
  });
  queue = record (k.queue) { lab6_run_pool = root; proc_num = increment k.queue.proc_num };
}

abbrev pub pool_left : Ptr → Nodes → Kernel → Kernel
pool_left root nodes k = record k {
  run_nodes = nodes;
  queue = record (k.queue) { lab6_run_pool = root; proc_num = decrement k.queue.proc_num };
}

pub pool_entered-Keeps :
    (root : Ptr) (h : Nodes) (p : Ptr) (k : Kernel) → Keeps k (pool_entered root h p k)
pool_entered-Keeps root h p k = record {
  current_same = refl;
  idleproc_same = refl;
  initproc_same = refl;
  satp_same = refl;
  state_same = λ q. ground arith;
  pgdir_same = λ q. ground arith;
}

pub pool_entered-SameKeys :
    (root : Ptr) (h : Nodes) (p : Ptr) (k : Kernel) → SameKeys k (pool_entered root h p k)
pool_entered-SameKeys root h p k = record {
  pid_same = λ q. ground arith;
  stride_same = λ q. ground arith;
  priority_same = λ q. ground arith;
}

pub pool_left-Keeps : (root : Ptr) (h : Nodes) (k : Kernel) → Keeps k (pool_left root h k)
pool_left-Keeps root h k = record {
  current_same = refl;
  idleproc_same = refl;
  initproc_same = refl;
  satp_same = refl;
  state_same = λ q. refl;
  pgdir_same = λ q. refl;
}

pub pool_left-SameKeys : (root : Ptr) (h : Nodes) (k : Kernel) → SameKeys k (pool_left root h k)
pool_left-SameKeys root h k = record {
  pid_same = λ q. refl;
  stride_same = λ q. refl;
  priority_same = λ q. refl;
}

module _ (comp : ProcCompare) where
  pub pool_enqueue_law :
      (k : Kernel) (t : Tree) (p : Ptr)
      → IsPool k t
      → HasWeight k p
      → has p (nodes t) ≡ false
      → size t + 1 < 2 ^ 32
      → Ends (pool_enqueue comp p k) λ k'.
        Keeps k k'
        × SameKeys k k'
        × IsPool k' (meld (comp k.procs) t (single p))
        × ((q : Ptr) → HasWeight k q → HasWeight k' q)
  unfolding pool_enqueue
  pool_enqueue_law k t p is w out room = (
    pool_entered y.root y.after p k,
    rw y.runs,
    (
      pool_entered-Keeps y.root y.after p k,
      pool_entered-SameKeys y.root y.after p k,
      record {
        heap = y.heap;
        counted = omega (arith, is.counted, size-meld (comp k.procs) t (single p));
        few = omega (arith, size-meld (comp k.procs) t (single p));
        bound = λ q i. ground (arith, is.bound q, has-meld (comp k.procs) q t (single p));
        weighted =
            λ q i. ground (arith, is.weighted q, has-meld (comp k.procs) q t (single p), w.weight);
      },
      λ q a. record { ne_null = a.ne_null; weight = ground (arith, a.weight) },
    ),
  )
    where
      y :
          Yields k.run_nodes t
            (single p)
            (meld (comp k.procs) t (single p))
            (skew_heap_insert (comp k.procs) (fuel k) k.queue.lab6_run_pool p k.run_nodes)
      y = insert-Yields (comp k.procs) is.heap (fuel k) p w.ne_null out (omega (arith, is.counted))
