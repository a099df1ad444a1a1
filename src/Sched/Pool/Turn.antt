-- ===== src/Sched/Pool/Turn.antt =====
-- What the stride class chooses, and that its strides stay in a window.
use os_lab.Base.{
  has, arith, true, false, ◌≡◌, ◌≢◌, ◌∙◌, ap, sym, subst, Ptr, null, ℕ, Ends, ◌≤◌, refl, ==_ne,
  some, none, Option,
}
use os_lab.Libs.SkewHeap.Tree.{Tree, leaf, node, nodes, before}
use os_lab.Libs.SkewHeap.Order.{IsOrdered, Least}
use os_lab.Sched.State.{Kernel}
use os_lab.Sched.Framework.{schedule}
use os_lab.Sched.Contract.Defs.{SameKeys}
use os_lab.Sched.Contract.Schedule.{has-waiting, Ready, choice}
use os_lab.Sched.Pool.Stride.{stride_sched_class, proc_stride_comp_f, advance, stride_pick_next}
use os_lab.Sched.Pool.Queue.{IsPool, top}
use os_lab.Sched.Pool.Contract.{pool_contract}
use os_lab.Sched.Pool.Classes.{stride_IsPoolClass, advanced, stride_pick_root}
use os_lab.Sched.Pool.Policy.{Chosen, in_wait, schedule-Chosen}
use os_lab.Sched.Pool.Window.{
  Window-same, Window, offset, stride_before, stride_IsOrder, stride_IsKeyed, advance-Window,
}

-- The heap from which the next `schedule` chooses.
abbrev pub contest : Kernel → Tree → Tree
contest k t = in_wait stride_IsPoolClass stride_IsKeyed k t

moved_stride :
    (k via taken k' : Kernel) (l : Tree) (x : Ptr) (r : Tree)
    → IsPool via (node l x r)
    → SameKeys k via
    → stride_pick_next via ≡ some (x, taken)
    → SameKeys taken k'
    → ((k'.procs x).lab6_stride ≡ (advance (k.procs x)).lab6_stride)
      × ((q : Ptr) → q ≢ x → (k'.procs q).lab6_stride ≡ (k.procs q).lab6_stride)
unfolding advance
moved_stride k via taken k' l x r is s pick s' = (
  ground (arith, s'.stride_same x, here, s.stride_same x, s.priority_same x),
  λ q ne. s'.stride_same q ∙ there q ne ∙ s.stride_same q,
)
  where
    e : taken ≡ advanced x via
    e =
        ap (λ (m : Option (Ptr × Kernel)). elim m [ none ↦ taken | some z ↦ z.1 ])
          (sym pick ∙ stride_pick_root via l x r is)

    here : (taken.procs x).lab6_stride ≡ (advance (via.procs x)).lab6_stride
    here = rw e (ground arith)

    there : (q : Ptr) → q ≢ x → (taken.procs q).lab6_stride ≡ (via.procs q).lab6_stride
    there q ne = rw e (ground arith)

turn-Window :
    (k via taken k' : Kernel) (w : Tree) (base : ℕ)
    → IsPool via w
    → SameKeys k via
    → stride_pick_next via ≡ some (top w, taken)
    → SameKeys taken k'
    → Least (proc_stride_comp_f k.procs) (top w) (nodes w)
    → Window k.procs (nodes w) base
    → (base' : ℕ) × Window k'.procs (nodes w) base'
turn-Window k via taken k' leaf base is s pick s' le w = (
  0,
  record { base_lt = omega arith; stride_lt = λ q i. ground arith; within = λ q i. ground arith },
)
turn-Window k via taken k' (node l x r) base is s pick s' le w =
    let (moved, same) = moved_stride k via taken k' l x r is s pick s' in
    (
      (k.procs x).lab6_stride,
      advance-Window k.procs k'.procs (nodes (node l x r)) base x w (ground arith) le moved same,
    )

has-top : (t : Tree) → top t ≢ null → has (top t) (nodes t) ≡ true
has-top leaf ne = absurd (ne refl)
has-top (node l x r) ne = ground arith

chosen_top :
    (k via : Kernel) (w : Tree) (q : Ptr)
    → IsPool via w
    → has q (nodes w) ≡ true
    → (choice (pool_contract stride_IsPoolClass) k w ≡ top w) × (has (top w) (nodes w) ≡ true)
chosen_top k via leaf q is i = ground arith
chosen_top k via (node l x r) q is i = (rw (==_ne x null is.heap.shape.1), ground arith)

-- The next contest is among those that were waiting.
contest_within :
    (k : Kernel) (t : Tree) (k' : Kernel) (c : Chosen stride_IsPoolClass stride_IsKeyed k t k')
    (q : Ptr)
    → has q (nodes (contest k' c.rest)) ≡ true
    → has q (nodes (contest k t)) ≡ true
contest_within k t k' c q i = ground (
  arith,
  has-waiting (pool_contract stride_IsPoolClass) k' c.rest q,
  c.members q,
  c.runs.running,
  c.runs.idleproc_same,
  has-top (contest k t),
)

-- Under stride scheduling, from a state whose heap is sound and in order, with the strides of
-- those that wait in a window no wider than BIG_STRIDE, schedule succeeds, keeps the heap sound
-- and in order, and runs a process whose stride is the least of those that wait; the strides of
-- those that wait next are in a window again.
pub stride_schedule :
    (k : Kernel) (t : Tree) (base : ℕ)
    → Ready (pool_contract stride_IsPoolClass) k t
    → IsOrdered (proc_stride_comp_f k.procs) t
    → Window k.procs (nodes (contest k t)) base
    → Ends (schedule stride_sched_class k) λ k'.
      (rest : Tree) × Ready (pool_contract stride_IsPoolClass) k' rest
      × IsOrdered (proc_stride_comp_f k'.procs) rest
      × ((q : Ptr)
          → has q (nodes (contest k t)) ≡ true
          → offset base (k.procs k'.current).lab6_stride ≤ offset base (k.procs q).lab6_stride)
      × ((base' : ℕ) × Window k'.procs (nodes (contest k' rest)) base')
stride_schedule k t base r o w =
    let (k', run, c) =
      schedule-Chosen stride_IsPoolClass stride_IsKeyed k t r o
        (stride_IsOrder k.procs (nodes (contest k t)) base w) in
    let out = c.outcome in
    let top_runs : (q : Ptr)
        → has q (nodes (contest k t)) ≡ true
        → (k'.current ≡ top (contest k t)) × (has k'.current (nodes (contest k t)) ≡ true) =
      λ q i.
        let (e, h) = chosen_top k out.via (contest k t) q out.held i in
        (c.runs.running ∙ e, rw (c.runs.running ∙ e) h) in
    let (base', w') =
      turn-Window k out.via out.taken k' (contest k t) base out.held out.keys out.pick
        out.keys_after
        (λ q i.
          subst (λ n. before (proc_stride_comp_f k.procs) q n ≡ false) (top_runs q i).0
            (c.least q i))
        w in
    (
      k',
      run,
      (
        c.rest,
        c.ready,
        c.ordered,
        (λ q i. ground (
          arith,
          stride_before k.procs (nodes (contest k t)) base q k'.current w i (top_runs q i).1,
          c.least q i,
        )),
        (
          base',
          Window-same k'.procs k'.procs (nodes (contest k t)) (nodes (contest k' c.rest)) base'
              (λ q. refl) (contest_within k t k' c) w',
        ),
      ),
    )
