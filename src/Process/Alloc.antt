-- ===== src/Process/Alloc.antt =====
-- `alloc_proc`, `lab6_set_priority` and `do_yield` of kern/process/proc.c: what they do to the
-- scheduler's state.
use os_lab.Base.{
  ==_ne, Ptr, null, ℕ, ◌==◌, ◌≡◌, ◌≢◌, true, false, List, [], ◌∷◌, has, if◌then◌else◌, update,
  arith,
}
use os_lab.Base.Int.{negsuc}
use os_lab.Libs.Links.{list_init}
use os_lab.Libs.Links.Ring.{Chain-frame}
use os_lab.Libs.Links.Detach.{list_init-SameAt, list_init-Detached, SameAt-Detached}
use os_lab.Libs.SkewHeap.Defs.{skew_heap_init}
use os_lab.Libs.SkewHeap.Tree.{Tree, nodes}
use os_lab.Libs.SkewHeap.Heap.{init_keeps}
use os_lab.Sched.State.{Kernel, ProcState, set_proc, run_list}
use os_lab.Sched.Class.{SchedClass}
use os_lab.Sched.Contract.Schedule.{Ready}
use os_lab.Sched.ListQueue.Defs.{IsAlone}
use os_lab.Sched.ListQueue.Contract.{IsListClass, list_contract}
use os_lab.Sched.Pool.Defs.{ProcCompare}
use os_lab.Sched.Pool.Queue.{HasWeight}
use os_lab.Sched.Pool.Contract.{IsPoolClass, pool_contract}

-- PROC_NAME_LEN + 1 zeros.
abbrev no_name : List ℕ
no_name = 0 ∷ 0 ∷ 0 ∷ 0 ∷ 0 ∷ 0 ∷ 0 ∷ 0 ∷ 0 ∷ 0 ∷ 0 ∷ 0 ∷ 0 ∷ 0 ∷ 0 ∷ 0 ∷ []

-- `proc` is the answer of kmalloc, and `boot_pgdir_pa` the kernel's page table. exit_code is not
-- set.
unfoldable pub alloc_proc : (proc boot_pgdir_pa : ℕ) → Kernel → Ptr × Kernel
alloc_proc proc boot_pgdir_pa k = if proc == null then (null, k) else (
  proc,
  record k {
    procs = update k.procs proc (record {
      state = ProcState.proc_uninit;
      pid = negsuc 0;
      runs = 0;
      kstack = 0;
      need_resched = false;
      parent = null;
      mm = null;
      tf = null;
      pgdir = boot_pgdir_pa;
      flags = 0;
      name = no_name;
      exit_code = (k.procs proc).exit_code;
      wait_state = 0;
      cptr = null;
      yptr = null;
      optr = null;
      rq = null;
      time_slice = 0;
      lab6_stride = 0;
      lab6_priority = 1;
    });
    run_links = list_init proc k.run_links;
    run_nodes = skew_heap_init proc k.run_nodes;
  },
)

unfoldable pub lab6_set_priority : ℕ → Kernel → Kernel
lab6_set_priority priority k =
    set_proc k.current
      (record (k.procs k.current) { lab6_priority = if priority == 0 then 1 else priority }) k

unfoldable pub do_yield : Kernel → Kernel
do_yield k = set_proc k.current (record (k.procs k.current) { need_resched = true }) k

-- A block that is no process of the scheduler's.
pub record Fresh (k : Kernel) (xs : List Ptr) (e : Ptr) : Type 0 where
  pub ne_null : e ≢ null
  pub ne_head : e ≢ run_list
  pub ne_current : e ≢ k.current
  pub ne_idle : e ≢ k.idleproc
  pub absent : has e xs ≡ false

-- Under a list-based class, from a state whose queue is sound, alloc_proc with a block that is no
-- process of the scheduler's leaves the queue sound and makes a process that can be put in it.
pub alloc_proc-IsAlone :
    {cls : SchedClass} (l : IsListClass cls) (k : Kernel) (xs : List Ptr) (e pa : ℕ)
    → Ready (list_contract l) k xs
    → Fresh k xs e
    → Ready (list_contract l) (alloc_proc e pa k).1 xs × IsAlone (alloc_proc e pa k).1 e
unfolding alloc_proc
alloc_proc-IsAlone l k xs e pa r new = rw (==_ne e null new.ne_null) (
  record {
    holds = record {
      ring = record {
        chain =
            Chain-frame _ _ run_list xs run_list r.holds.ring.chain
              (λ q i.
                (list_init-SameAt k.run_links e q
                  (ground (arith, new.ne_head, new.absent))).next_same)
              (λ q i.
                (list_init-SameAt k.run_links e q
                  (ground (arith, new.ne_head, new.absent))).prev_same);
        distinct = r.holds.ring.distinct;
      };
      no_null = r.holds.no_null;
      counted = r.holds.counted;
      few = r.holds.few;
      bound = λ q i. ground (arith, r.holds.bound q, new.absent);
    };
    few = r.few;
    idle_out = r.idle_out;
    current_out = r.current_out;
    current_free = λ ne. record {
      ne_null = (r.current_free ne).ne_null;
      ne_head = (r.current_free ne).ne_head;
      detached =
          SameAt-Detached
            (list_init-SameAt k.run_links e k.current (ground (arith, new.ne_current)))
            (r.current_free ne).detached;
    };
  },
  record {
    ne_null = new.ne_null;
    ne_head = new.ne_head;
    detached = list_init-Detached k.run_links e;
  },
)

-- Under a heap-based class, from a state whose heap is sound, alloc_proc with a block that is no
-- process of the scheduler's leaves the heap sound and makes a process that can be put in it, with
-- a priority that is not zero.
pub alloc_proc-HasWeight :
    {cls : SchedClass} {comp : ProcCompare} (c : IsPoolClass cls comp) (k : Kernel) (t : Tree)
    (e pa : ℕ)
    → Ready (pool_contract c) k t
    → Fresh k (nodes t) e
    → Ready (pool_contract c) (alloc_proc e pa k).1 t × HasWeight (alloc_proc e pa k).1 e
unfolding alloc_proc
alloc_proc-HasWeight {comp = comp} c k t e pa r new = rw (==_ne e null new.ne_null) (
  record {
    holds = record {
      heap = init_keeps (comp k.procs) r.holds.heap e new.absent;
      counted = r.holds.counted;
      few = r.holds.few;
      bound = λ q i. ground (arith, r.holds.bound q, new.absent);
      weighted = λ q i. ground (arith, r.holds.weighted q, new.absent);
    };
    few = r.few;
    idle_out = r.idle_out;
    current_out = r.current_out;
    current_free = λ ne. record {
      ne_null = (r.current_free ne).ne_null;
      weight = ground (arith, (r.current_free ne).weight, new.ne_current);
    };
  },
  record { ne_null = new.ne_null; weight = ground arith },
)

-- Under a heap-based class, from a state whose heap is sound, lab6_set_priority leaves it sound
-- for every argument, zero included, and the running process with a priority that is not zero,
-- which stride scheduling divides by.
pub lab6_set_priority-Ready :
    {cls : SchedClass} {comp : ProcCompare} (c : IsPoolClass cls comp) (k : Kernel) (t : Tree)
    (priority : ℕ)
    → Ready (pool_contract c) k t
    → Ready (pool_contract c) (lab6_set_priority priority k) t
      × ((lab6_set_priority priority k).procs k.current).lab6_priority ≢ 0
unfolding lab6_set_priority
lab6_set_priority-Ready c k t priority r = (
  record {
    holds = record {
      heap = r.holds.heap;
      counted = r.holds.counted;
      few = r.holds.few;
      bound = λ q i. ground (arith, r.holds.bound q);
      weighted = λ q i. ground (arith, r.holds.weighted q, r.current_out);
    };
    few = r.few;
    idle_out = r.idle_out;
    current_out = r.current_out;
    current_free = λ ne. record { ne_null = (r.current_free ne).ne_null; weight = ground arith };
  },
  ground arith,
)
