-- ===== src/Sched/Pool/Contract.antt =====
-- A class that enqueues and dequeues in the shared way, and picks the top of the heap, keeps the
-- contract. Its pick may change the stride of the process that it picks.
use os_lab.Libs.SkewHeap.Members.{has-meld, size-meld}
use os_lab.Base.{
  true, ltb, has-append, ◌^◌, ◌<◌, ◌||◌, ◌+◌, ◌∙◌, ◌==◌, false, if◌then◌else◌, length, has, suc,
  some, ◌≢◌, ◌≡◌, arith, Ptr, null, refl, Ends,
}
use os_lab.Libs.SkewHeap.Defs.{Nodes, skew_heap_remove}
use os_lab.Libs.SkewHeap.Tree.{Tree, leaf, node, nodes, meld}
use os_lab.Libs.SkewHeap.Heap.{Yields, single}
use os_lab.Libs.SkewHeap.Remove.{remove-Yields}
use os_lab.Sched.State.{run_queue, Kernel}
use os_lab.Sched.Class.{SchedClass}
use os_lab.Sched.Contract.Defs.{Contract, Keeps, SameKeys}
use os_lab.Sched.Pool.Defs.{ProcCompare, fuel, pool_enqueue, pool_dequeue}
use os_lab.Sched.Pool.Queue.{
  pool_left-SameKeys, pool_enqueue_law, length-nodes, HasWeight-stable, pool_left-Keeps, pool_left,
  IsPool-stable, IsPool, HasWeight, top,
}

pub record Picked (k k' : Kernel) (n : Ptr) : Type 0 where
  pub keeps : Keeps k k'
  pub nodes_same : k'.run_nodes ≡ k.run_nodes
  pub queue_same : k'.queue ≡ k.queue
  pub pid_same : (q : Ptr) → (k'.procs q).pid ≡ (k.procs q).pid
  pub rq_same : (q : Ptr) → (k'.procs q).rq ≡ (k.procs q).rq
  pub priority_same : (q : Ptr) → (k'.procs q).lab6_priority ≡ (k.procs q).lab6_priority
  pub stride_other : (q : Ptr) → q ≢ n → (k'.procs q).lab6_stride ≡ (k.procs q).lab6_stride

pub record IsPoolClass (cls : SchedClass) (comp : ProcCompare) : Type 0 where
  pub picked : Ptr → Kernel → Kernel
  pub picked_lem : (k : Kernel) (n : Ptr) → Picked k (picked n k) n
  pub enqueue_is : (p : Ptr) (k : Kernel) → cls.enqueue p k ≡ pool_enqueue comp p k
  pub dequeue_is : (p : Ptr) (k : Kernel) → cls.dequeue p k ≡ pool_dequeue comp p k
  pub pick_empty : (k : Kernel) → IsPool k leaf → cls.pick_next k ≡ some (null, k)
  pub pick_top :
      (k : Kernel) (l : Tree) (x : Ptr) (r : Tree)
      → IsPool k (node l x r)
      → cls.pick_next k ≡ some (x, picked x k)

module _ {cls : SchedClass} {comp : ProcCompare} (c : IsPoolClass cls comp) where
  -- What is left of the heap after its top was picked.
  abbrev pub others : Kernel → Tree → Tree
  others k leaf = leaf
  others k (node l x r) = meld (comp (c.picked x k).procs) l r

  Picked-IsPool : (k k' : Kernel) (n : Ptr) (t : Tree) → Picked k k' n → IsPool k t → IsPool k' t
  Picked-IsPool k k' n t s is = record {
    heap = rw (s.nodes_same, s.queue_same) is.heap;
    counted = rw s.queue_same is.counted;
    few = is.few;
    bound = λ q i. ground (arith, is.bound q, s.rq_same q);
    weighted = λ q i. rw (s.priority_same q) (is.weighted q i);
  }

  dequeue_runs :
      (k : Kernel) (x root : Ptr) (h : Nodes)
      → (k.procs x).rq ≡ run_queue
      → 0 < k.queue.proc_num
      → skew_heap_remove (comp k.procs) (fuel k) k.queue.lab6_run_pool x k.run_nodes
        ≡ some (root, h)
      → pool_dequeue comp x k ≡ some (pool_left root h k)
  unfolding pool_dequeue
  dequeue_runs k x root h b pos e =
      let test : ltb 0 k.queue.proc_num ≡ true = ground arith in rw (b, test, e)

  dequeue_top :
      (k : Kernel) (l : Tree) (x : Ptr) (r : Tree)
      → IsPool k (node l x r)
      → Ends (pool_dequeue comp x k) λ k'.
        Keeps k k'
        × SameKeys k k'
        × IsPool k' (meld (comp k.procs) l r)
        × ((q : Ptr) → HasWeight k q → HasWeight k' q)
  dequeue_top k l x r is = (
    pool_left y.root y.after k,
    dequeue_runs k x y.root y.after (is.bound x (ground arith)) (omega (arith, is.counted)) y.runs,
    (
      pool_left-Keeps y.root y.after k,
      pool_left-SameKeys y.root y.after k,
      record {
        heap = y.heap;
        counted = omega (arith, is.counted, is.few, size-meld (comp k.procs) l r);
        few = omega (arith, is.few, size-meld (comp k.procs) l r);
        bound = λ q i.
            ground
              (arith, is.bound q, has-meld (comp k.procs) q l r, has-append q (nodes l) (nodes r));
        weighted = λ q i.
            is.weighted q
              (ground (arith, has-meld (comp k.procs) q l r, has-append q (nodes l) (nodes r)));
      },
      λ q a. record { ne_null = a.ne_null; weight = a.weight },
    ),
  )
    where
      y :
          Yields k.run_nodes
            (node l x r)
            leaf
            (meld (comp k.procs) l r)
            (skew_heap_remove (comp k.procs) (fuel k) k.queue.lab6_run_pool x k.run_nodes)
      y = remove-Yields (comp k.procs) is.heap (fuel k) (omega (arith, is.counted))

  pub has-others :
      (k : Kernel) (t : Tree) (q : Ptr)
      → IsPool k t
      → has q (nodes (others k t)) ≡ (if q == top t then false else has q (nodes t))
  has-others k leaf q is = ground arith
  has-others k (node l x r) q is = ground (
    arith,
    has-meld (comp (c.picked x k).procs) q l r,
    has-append q (nodes l) (nodes r),
    is.heap.proper,
  )

  pub length-others :
      (k : Kernel) (t : Tree) → top t ≢ null → suc (length (nodes (others k t))) ≡ length (nodes t)
  length-others k leaf ne = absurd (ne refl)
  length-others k (node l x r) ne = omega (
    arith,
    length-nodes (others k (node l x r)),
    length-nodes (node l x r),
    size-meld (comp (c.picked x k).procs) l r,
  )

  pub length-add :
      (k : Kernel) (t : Tree) (p : Ptr)
      → length (nodes (meld (comp k.procs) t (single p))) ≡ suc (length (nodes t))
  length-add k t p = omega (
    arith,
    length-nodes (meld (comp k.procs) t (single p)),
    length-nodes t,
    size-meld (comp k.procs) t (single p),
  )

  pub has-add :
      (k : Kernel) (t : Tree) (p q : Ptr)
      → has q (nodes (meld (comp k.procs) t (single p))) ≡ ((q == p) || has q (nodes t))
  has-add k t p q = ground (arith, has-meld (comp k.procs) q t (single p))

  pub top-null :
      (k : Kernel) (t : Tree) (q : Ptr) → IsPool k t → top t ≡ null → has q (nodes t) ≡ false
  top-null k leaf q is e = refl
  top-null k (node l x r) q is e = absurd (is.heap.shape.1 e)

  pub enqueue_lem :
      (k : Kernel) (t : Tree) (p : Ptr)
      → IsPool k t
      → HasWeight k p
      → has p (nodes t) ≡ false
      → length (nodes t) + 1 < 2 ^ 32
      → Ends (cls.enqueue p k) λ k'.
        Keeps k k'
        × SameKeys k k'
        × IsPool k' (meld (comp k.procs) t (single p))
        × ((q : Ptr) → q ≢ p → has q (nodes t) ≡ false → HasWeight k q → HasWeight k' q)
  enqueue_lem k t p is w out room =
      let (k', run, g) = pool_enqueue_law comp k t p is w out (omega (arith, length-nodes t)) in
      (k', c.enqueue_is p k ∙ run, (g.0, g.1, g.2, λ q ne o. g.3 q))

  pub empty_lem :
      (k : Kernel) (t : Tree) → IsPool k t → top t ≡ null → cls.pick_next k ≡ some (null, k)
  empty_lem k leaf is e = c.pick_empty k is
  empty_lem k (node l x r) is e = absurd (is.heap.shape.1 e)

  pub take_lem :
      (k : Kernel) (t : Tree)
      → IsPool k t
      → top t ≢ null
      → Ends (cls.pick_next k) λ (n, k').
        (n ≡ top t)
        × Keeps k k'
        × Ends (cls.dequeue n k') λ k''.
          Keeps k' k''
          × SameKeys k' k''
          × IsPool k'' (others k t)
          × HasWeight k'' n
          × ((q : Ptr) → has q (nodes t) ≡ false → HasWeight k q → HasWeight k'' q)
  take_lem k leaf is ne = absurd (ne refl)
  take_lem k (node l x r) is ne =
      let s = c.picked_lem k x in
      let (k'', run, g) =
        dequeue_top (c.picked x k) l x r (Picked-IsPool k (c.picked x k) x (node l x r) s is) in
      (
        (x, c.picked x k),
        c.pick_top k l x r is,
        (
          refl,
          s.keeps,
          (
            k'',
            c.dequeue_is x (c.picked x k) ∙ run,
            (
              g.0,
              g.1,
              g.2,
              g.3 x (record {
                ne_null = ne;
                weight = rw (s.priority_same x) (is.weighted x (ground arith));
              }),
              λ q o a.
                  g.3 q (record { ne_null = a.ne_null; weight = rw (s.priority_same q) a.weight }),
            ),
          ),
        ),
      )

  -- The view is the tree of the heap.
  abbrev pub pool_contract : Contract cls
  pool_contract = record {
    View = Tree;
    members = nodes;
    Holds = IsPool;
    Free = HasWeight;
    put = λ k t p. meld (comp k.procs) t (single p);
    first = top;
    rest = others;
    Holds_stable = IsPool-stable;
    Free_stable = HasWeight-stable;
    first_null = top-null;
    has-put = has-add;
    has-rest = has-others;
    length-put = length-add;
    length-rest = λ k t is ne. length-others k t ne;
    enqueue_law = enqueue_lem;
    empty_law = empty_lem;
    take_law = take_lem;
  }
