-- ===== src/Sched/Pool/Policy.antt =====
-- The order of the heap through `schedule`: no waiting process goes before the chosen one.
use os_lab.Sched.Framework.{schedule}
use os_lab.Libs.SkewHeap.Members.{has-meld}
use os_lab.Libs.SkewHeap.Defs.{Compare}
use os_lab.Libs.SkewHeap.Tree.{Tree, leaf, node, nodes, before, meld}
use os_lab.Libs.SkewHeap.Heap.{single}
use os_lab.Libs.SkewHeap.Order.{IsOrder, IsOrdered, Least, IsOrdered-meld}
use os_lab.Sched.Pool.Queue.{IsPool, top}
use os_lab.Sched.State.{Kernel, Proc}
use os_lab.Sched.Class.{SchedClass}
use os_lab.Sched.Contract.Defs.{SameKeys}
use os_lab.Sched.Contract.Switch.{cleared-SameKeys, cleared, goes_back, Runs}
use os_lab.Sched.Contract.Schedule.{
  has-left_over, Ready, waiting, left_over, choice, schedule_law, Outcome,
}
use os_lab.Sched.Pool.Defs.{ProcCompare}
use os_lab.Sched.Pool.Agree.{IsOrdered-agree, IsOrder-agree, IsOrder-Within, top-Least}
use os_lab.Sched.Pool.Contract.{IsPoolClass, pool_contract}
use os_lab.Base.{
  subst, false, ◌==◌, Ends, if◌then◌else◌, ==_ne, ◌++◌, none, some, Option, Option, ◌∙◌, ap, ◌≢◌,
  some, inr, inl, Bool-cases, true, sym, has-append, has, arith, ◌≡◌, Ptr, null, ◌⊎◌, refl,
}

-- A comparison looks at the keys of the two processes only.
pub record IsKeyed (comp : ProcCompare) : Type 0 where
  pub keyed :
      (f g : Ptr → Proc) (a b : Ptr)
      → (g a).pid ≡ (f a).pid
      → (g a).lab6_stride ≡ (f a).lab6_stride
      → (g a).lab6_priority ≡ (f a).lab6_priority
      → (g b).pid ≡ (f b).pid
      → (g b).lab6_stride ≡ (f b).lab6_stride
      → (g b).lab6_priority ≡ (f b).lab6_priority
      → before (comp g) a b ≡ before (comp f) a b

module _ {cls : SchedClass} {comp : ProcCompare} (c : IsPoolClass cls comp)
    (keyed : IsKeyed comp) where
  abbrev pub in_wait : Kernel → Tree → Tree
  in_wait k t = waiting (pool_contract c) k t

  SameKeys-agree :
      (k k' : Kernel) (a b : Ptr)
      → SameKeys k k'
      → before (comp k'.procs) a b ≡ before (comp k.procs) a b
  SameKeys-agree k k' a b s =
      keyed.keyed k.procs k'.procs a b (s.pid_same a) (s.stride_same a) (s.priority_same a)
        (s.pid_same b) (s.stride_same b) (s.priority_same b)

  pub waiting-IsOrdered :
      (k : Kernel) (t : Tree)
      → IsOrdered (comp k.procs) t
      → IsOrder (comp k.procs) (nodes (in_wait k t))
      → IsOrdered (comp k.procs) (in_wait k t)
  waiting-IsOrdered k t o s = elim (Bool-cases (goes_back k)) [
    | inl e ↦ rw e (entered-IsOrdered (rw e at s))
    | inr e ↦ rw e o
  ]
    where
      agree : (a b : Ptr) → before (comp (cleared k).procs) a b ≡ before (comp k.procs) a b
      agree a b = SameKeys-agree k (cleared k) a b (cleared-SameKeys k)

      entered-IsOrdered :
          IsOrder (comp k.procs) (nodes (meld (comp (cleared k).procs) t (single k.current)))
          → IsOrdered (comp k.procs) (meld (comp (cleared k).procs) t (single k.current))
      entered-IsOrdered u =
          IsOrdered-agree (comp (cleared k).procs) (comp k.procs)
            (meld (comp (cleared k).procs) t (single k.current)) (λ a b i j. sym (agree a b))
            (IsOrdered-meld
              (IsOrder-agree (comp k.procs) (comp (cleared k).procs) _ (λ a b i j. agree a b) u) t
              (single k.current)
              (IsOrdered-agree (comp k.procs) (comp (cleared k).procs) t (λ a b i j. agree a b) o)
              ((λ q i. ground arith), (λ q i. ground arith), tt, tt)
              (λ q i. ground (arith, has-meld (comp (cleared k).procs) q t (single k.current)))
              (λ q i. ground (arith, has-meld (comp (cleared k).procs) q t (single k.current))))

  -- Keys that agree, read at two processes of which neither is `x`.
  picked-agree :
      (k via taken k' : Kernel) (x a b : Ptr)
      → SameKeys k via
      → taken ≡ c.picked x via
      → SameKeys taken k'
      → a ≢ x
      → b ≢ x
      → (before (comp (c.picked x via).procs) a b ≡ before (comp k.procs) a b)
        × (before (comp k'.procs) a b ≡ before (comp k.procs) a b)
  picked-agree k via taken k' x a b s e s' na nb =
      let p = c.picked_lem via x in
      let step : before (comp (c.picked x via).procs) a b ≡ before (comp via.procs) a b =
        keyed.keyed via.procs (c.picked x via).procs a b (p.pid_same a) (p.stride_other a na)
          (p.priority_same a) (p.pid_same b) (p.stride_other b nb) (p.priority_same b) in
      let now = step ∙ SameKeys-agree k via a b s in
      (now, SameKeys-agree taken k' a b s' ∙ ap (λ (j : Kernel). before (comp j.procs) a b) e ∙ now)

  pub left_over-IsOrdered :
      (k via taken k' : Kernel) (w : Tree)
      → IsPool via w
      → SameKeys k via
      → cls.pick_next via ≡ some (top w, taken)
      → SameKeys taken k'
      → IsOrdered (comp k.procs) w
      → IsOrder (comp k.procs) (nodes w)
      → IsOrdered (comp k'.procs) (left_over (pool_contract c) via w)
  left_over-IsOrdered k via taken k' leaf is s pick s' o u = tt
  left_over-IsOrdered k via taken k' (node l x r) is s pick s' o u =
      rw (==_ne x null is.heap.shape.1) (
        IsOrdered-agree now (comp k'.procs) (meld now l r)
          (λ a b i j.
            (agree a b (ground (arith, inside a i)) (ground (arith, inside b j))).1
            ∙ sym (agree a b (ground (arith, inside a i)) (ground (arith, inside b j))).0)
          (IsOrdered-meld
            (IsOrder-agree (comp k.procs) now (nodes l ++ nodes r)
              (λ a b i j. (agree a b (ground (arith, apart a)) (ground (arith, apart b))).0)
              (IsOrder-Within (comp k.procs) (nodes l ++ nodes r) (nodes (node l x r))
                (λ q i. ground arith) u))
            l r
            (IsOrdered-agree (comp k.procs) now l
              (λ a b i j. (agree a b (ground arith) (ground arith)).0) o.2)
            (IsOrdered-agree (comp k.procs) now r
              (λ a b i j. (agree a b (ground arith) (ground arith)).0) o.3)
            (λ q i. ground (arith, has-append q (nodes l) (nodes r)))
            (λ q i. ground (arith, has-append q (nodes l) (nodes r)))))
    where
      now : Compare
      now = comp (c.picked x via).procs

      e : taken ≡ c.picked x via
      e =
          ap (λ (m : Option (Ptr × Kernel)). elim m [ none ↦ taken | some z ↦ z.1 ])
            (sym pick ∙ c.pick_top via l x r is)

      agree :
          (a b : Ptr)
          → a ≢ x
          → b ≢ x
          → (before now a b ≡ before (comp k.procs) a b)
            × (before (comp k'.procs) a b ≡ before (comp k.procs) a b)
      agree a b = picked-agree k via taken k' x a b s e s'

      apart : (a : Ptr) → has a (nodes l ++ nodes r) ≡ true → a ≢ x
      apart a i h = ground (arith, has-append a (nodes l) (nodes r), is.heap.proper)

      inside : (a : Ptr) → has a (nodes (meld now l r)) ≡ true → a ≢ x
      inside a i h = ground (arith, has-meld now a l r, is.heap.proper)

  -- What `schedule` ends in, when the heap was ordered: the heap is ordered again, and no process
  -- that was waiting goes before the one that runs now.
  pub record Chosen (k : Kernel) (t : Tree) (k' : Kernel) : Type 0 where
    pub rest : Tree
    pub outcome : Outcome (pool_contract c) k t k'
    pub ready : Ready (pool_contract c) k' rest
    pub ordered : IsOrdered (comp k'.procs) rest
    pub runs : Runs k (choice (pool_contract c) k (in_wait k t)) k'
    pub least : Least (comp k.procs) k'.current (nodes (in_wait k t))
    pub members :
        (q : Ptr)
        → has q (nodes rest)
          ≡ (if q == top (in_wait k t) then false else has q (nodes (in_wait k t)))

  choice-Least :
      (k via : Kernel) (w : Tree)
      → IsPool via w
      → IsOrder (comp k.procs) (nodes w)
      → IsOrdered (comp k.procs) w
      → Least (comp k.procs) (choice (pool_contract c) k w) (nodes w)
  choice-Least k via leaf is u o = λ q i. ground arith
  choice-Least k via (node l x r) is u o =
      rw (==_ne x null is.heap.shape.1) (top-Least (comp k.procs) (node l x r) u o)

  -- One that waits runs, or the idle process if none does.
  pub choice_waits :
      (k via : Kernel) (w : Tree)
      → IsPool via w
      → (has (choice (pool_contract c) k w) (nodes w) ≡ true)
        ⊎ ((choice (pool_contract c) k w ≡ k.idleproc) × ((q : Ptr) → has q (nodes w) ≡ false))
  choice_waits k via leaf is = inr (refl, λ q. refl)
  choice_waits k via (node l x r) is = inl (rw (==_ne x null is.heap.shape.1) (ground arith))

  pub schedule-Chosen :
      (k : Kernel) (t : Tree)
      → Ready (pool_contract c) k t
      → IsOrdered (comp k.procs) t
      → IsOrder (comp k.procs) (nodes (in_wait k t))
      → Ends (schedule cls k) λ k'. Chosen k t k'
  schedule-Chosen k t r o u =
      let (k', run, out) = schedule_law (pool_contract c) k t r in
      let ow = waiting-IsOrdered k t o u in
      (
        k',
        run,
        record {
          rest = left_over (pool_contract c) out.via (in_wait k t);
          outcome = out;
          ready = out.ready;
          ordered =
              left_over-IsOrdered k out.via out.taken k' (in_wait k t) out.held out.keys out.pick
                out.keys_after ow u;
          runs = out.runs;
          least =
              subst (λ n. Least (comp k.procs) n (nodes (in_wait k t))) (sym out.runs.running)
                (choice-Least k out.via (in_wait k t) out.held u ow);
          members = λ q. has-left_over (pool_contract c) out.via (in_wait k t) q out.held;
        },
      )
