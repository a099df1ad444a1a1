-- ===== src/Sched/Contract/Defs.antt =====
-- The contract of a scheduling class.
use os_lab.Base.{
  Ptr, null, suc, ◌+◌, ◌<◌, ◌^◌, ◌≡◌, ◌≢◌, false, ◌||◌, List, length, has, some, ◌==◌,
  if◌then◌else◌, Ends,
}
use os_lab.Sched.State.{Kernel}
use os_lab.Sched.Class.{SchedClass}

-- What a class leaves alone: who runs, and the part of each process that is the framework's.
pub record Keeps (k k' : Kernel) : Type 0 where
  pub current_same : k'.current ≡ k.current
  pub idleproc_same : k'.idleproc ≡ k.idleproc
  pub initproc_same : k'.initproc ≡ k.initproc
  pub satp_same : k'.satp ≡ k.satp
  pub state_same : (q : Ptr) → (k'.procs q).state ≡ (k.procs q).state
  pub pgdir_same : (q : Ptr) → (k'.procs q).pgdir ≡ (k.procs q).pgdir

-- What the framework leaves alone: the queue, and the part of each process that is the class's.
pub record SameQueue (k k' : Kernel) : Type 0 where
  pub links_same : k'.run_links ≡ k.run_links
  pub nodes_same : k'.run_nodes ≡ k.run_nodes
  pub queue_same : k'.queue ≡ k.queue
  pub pid_same : (q : Ptr) → (k'.procs q).pid ≡ (k.procs q).pid
  pub rq_same : (q : Ptr) → (k'.procs q).rq ≡ (k.procs q).rq
  pub slice_same : (q : Ptr) → (k'.procs q).time_slice ≡ (k.procs q).time_slice
  pub stride_same : (q : Ptr) → (k'.procs q).lab6_stride ≡ (k.procs q).lab6_stride
  pub priority_same : (q : Ptr) → (k'.procs q).lab6_priority ≡ (k.procs q).lab6_priority

-- The keys by which the classes order processes.
pub record SameKeys (k k' : Kernel) : Type 0 where
  pub pid_same : (q : Ptr) → (k'.procs q).pid ≡ (k.procs q).pid
  pub stride_same : (q : Ptr) → (k'.procs q).lab6_stride ≡ (k.procs q).lab6_stride
  pub priority_same : (q : Ptr) → (k'.procs q).lab6_priority ≡ (k.procs q).lab6_priority

pub record Contract (cls : SchedClass) : Type 1 where
  -- The queue as its client sees it. `Free` says that a process is in no queue and may be put in one.
  pub View : Type 0
  pub members : View → List Ptr
  pub Holds : Kernel → View → Type 0
  pub Free : Kernel → Ptr → Type 0
  pub put : Kernel → View → Ptr → View
  pub first : View → Ptr
  pub rest : Kernel → View → View
  pub Holds_stable : (k k' : Kernel) (v : View) → SameQueue k k' → Holds k v → Holds k' v
  pub Free_stable : (k k' : Kernel) (p : Ptr) → SameQueue k k' → Free k p → Free k' p
  pub first_null :
      (k : Kernel) (v : View) (q : Ptr) → Holds k v → first v ≡ null → has q (members v) ≡ false
  pub has-put :
      (k : Kernel) (v : View) (p q : Ptr)
      → has q (members (put k v p)) ≡ ((q == p) || has q (members v))
  pub has-rest :
      (k : Kernel) (v : View) (q : Ptr)
      → Holds k v
      → has q (members (rest k v)) ≡ (if q == first v then false else has q (members v))
  pub length-put :
      (k : Kernel) (v : View) (p : Ptr) → length (members (put k v p)) ≡ suc (length (members v))
  pub length-rest :
      (k : Kernel) (v : View)
      → Holds k v
      → first v ≢ null
      → suc (length (members (rest k v))) ≡ length (members v)
  pub enqueue_law :
      (k : Kernel) (v : View) (p : Ptr)
      → Holds k v
      → Free k p
      → has p (members v) ≡ false
      → length (members v) + 1 < 2 ^ 32
      → Ends (cls.enqueue p k) λ k'.
        Keeps k k'
        × SameKeys k k'
        × Holds k' (put k v p)
        × ((q : Ptr) → q ≢ p → has q (members v) ≡ false → Free k q → Free k' q)
  pub empty_law :
      (k : Kernel) (v : View) → Holds k v → first v ≡ null → cls.pick_next k ≡ some (null, k)
  pub take_law :
      (k : Kernel) (v : View)
      → Holds k v
      → first v ≢ null
      → Ends (cls.pick_next k) λ (n, k').
        (n ≡ first v)
        × Keeps k k'
        × Ends (cls.dequeue n k') λ k''.
          Keeps k' k''
          × SameKeys k' k''
          × Holds k'' (rest k v)
          × Free k'' n
          × ((q : Ptr) → has q (members v) ≡ false → Free k q → Free k'' q)
