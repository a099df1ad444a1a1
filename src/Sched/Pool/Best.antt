-- ===== src/Sched/Pool/Best.antt =====
-- What the three heap-based classes choose.
use os_lab.Base.{
  ◌⊎◌, not, inl, inr, ◌∙◌, false, has, ◌||◌, ◌==◌, arith, true, ◌&&◌, ◌≡◌, Bool, Ptr, Ends, ◌≤◌,
}
use os_lab.Libs.SkewHeap.Tree.{Tree, nodes}
use os_lab.Libs.SkewHeap.Order.{IsOrdered}
use os_lab.Sched.State.{Kernel, is_runnable}
use os_lab.Sched.Class.{SchedClass}
use os_lab.Sched.Pool.Defs.{ProcCompare}
use os_lab.Sched.Framework.{schedule}
use os_lab.Sched.Contract.Schedule.{has-waiting, Ready}
use os_lab.Sched.Pool.Hpf.{hpf_sched_class, proc_prio_comp_f}
use os_lab.Sched.Pool.Sjf.{sjf_sched_class, proc_sjf_comp_f}
use os_lab.Sched.Pool.Contract.{pool_contract, IsPoolClass}
use os_lab.Sched.Pool.Classes.{hpf_IsPoolClass, sjf_IsPoolClass}
use os_lab.Sched.Pool.Policy.{IsKeyed, Chosen, choice_waits, in_wait, schedule-Chosen}
use os_lab.Sched.Pool.Keys.{
  hpf_before, sjf_before, hpf_IsOrder, hpf_IsKeyed, sjf_IsOrder, sjf_IsKeyed,
}

-- The processes that `schedule` chooses from: the queue, and the running one if its state is
-- PROC_RUNNABLE and it is not the idle one.
abbrev pub waits : Kernel → Tree → Ptr → Bool
waits k t q =
    (is_runnable (k.procs k.current).state && (not (k.current == k.idleproc) && (q == k.current)))
    || has q (nodes t)

-- A process that waits runs, or the idle one if none waits.
abbrev pub OneOf : Kernel → Tree → Ptr → Type 0
OneOf k t p = (waits k t p ≡ true) ⊎ ((p ≡ k.idleproc) × ((q : Ptr) → waits k t q ≡ false))

module _ {cls : SchedClass} {comp : ProcCompare} (c : IsPoolClass cls comp)
    (keyed : IsKeyed comp) where
  one_of : (k : Kernel) (t : Tree) (k' : Kernel) → Chosen c keyed k t k' → OneOf k t k'.current
  one_of k t k' ch =
      elim (choice_waits c keyed k ch.outcome.via (in_wait c keyed k t) ch.outcome.held) [
        | inl i ↦
            inl (ground (arith, has-waiting (pool_contract c) k t k'.current, ch.runs.running, i))
        | inr (idle, out) ↦ inr (
          ch.runs.running ∙ idle,
          λ q. ground (arith, has-waiting (pool_contract c) k t q, out q),
        )
      ]

-- Under HPF, from a state whose heap is sound and in order, schedule succeeds, keeps the heap
-- sound and in order, and runs a process that waits, with the highest priority of all that wait,
-- or the idle one if none waits. The processes that wait are those of the queue and the running
-- one, if its state is PROC_RUNNABLE and it is not the idle one.
pub hpf_schedule :
    (k : Kernel) (t : Tree)
    → Ready (pool_contract hpf_IsPoolClass) k t
    → IsOrdered (proc_prio_comp_f k.procs) t
    → Ends (schedule hpf_sched_class k) λ k'.
      (rest : Tree) × Ready (pool_contract hpf_IsPoolClass) k' rest
      × IsOrdered (proc_prio_comp_f k'.procs) rest
      × OneOf k t k'.current
      × ((q : Ptr)
          → waits k t q ≡ true
          → (k.procs q).lab6_priority ≤ (k.procs k'.current).lab6_priority)
hpf_schedule k t r o =
    let (k', run, c) =
      schedule-Chosen hpf_IsPoolClass hpf_IsKeyed k t r o
        (hpf_IsOrder k.procs (nodes (in_wait hpf_IsPoolClass hpf_IsKeyed k t))) in
    (
      k',
      run,
      (
        c.rest,
        c.ready,
        c.ordered,
        one_of hpf_IsPoolClass hpf_IsKeyed k t k' c,
        λ q i. ground (
          arith,
          hpf_before k.procs q k'.current,
          c.least q,
          has-waiting (pool_contract hpf_IsPoolClass) k t q,
        ),
      ),
    )

-- Under SJF, from a state whose heap is sound and in order, schedule succeeds, keeps the heap
-- sound and in order, and runs a process that waits, with the least estimate of all that wait, or
-- the idle one if none waits. The processes that wait are those of the queue and the running one,
-- if its state is PROC_RUNNABLE and it is not the idle one.
pub sjf_schedule :
    (k : Kernel) (t : Tree)
    → Ready (pool_contract sjf_IsPoolClass) k t
    → IsOrdered (proc_sjf_comp_f k.procs) t
    → Ends (schedule sjf_sched_class k) λ k'.
      (rest : Tree) × Ready (pool_contract sjf_IsPoolClass) k' rest
      × IsOrdered (proc_sjf_comp_f k'.procs) rest
      × OneOf k t k'.current
      × ((q : Ptr)
          → waits k t q ≡ true
          → (k.procs k'.current).lab6_priority ≤ (k.procs q).lab6_priority)
sjf_schedule k t r o =
    let (k', run, c) =
      schedule-Chosen sjf_IsPoolClass sjf_IsKeyed k t r o
        (sjf_IsOrder k.procs (nodes (in_wait sjf_IsPoolClass sjf_IsKeyed k t))) in
    (
      k',
      run,
      (
        c.rest,
        c.ready,
        c.ordered,
        one_of sjf_IsPoolClass sjf_IsKeyed k t k' c,
        λ q i. ground (
          arith,
          sjf_before k.procs q k'.current,
          c.least q,
          has-waiting (pool_contract sjf_IsPoolClass) k t q,
        ),
      ),
    )
