-- ===== src/Sched/ListQueue/Contract.antt =====
-- A class that moves processes by `entered` and `left`, and picks the front, keeps the contract.
use os_lab.Base.{
  ap, ◌∙◌, false, has, [], ◌∷◌, ◌≢◌, some, head_or, ◌≡◌, ◌++◌, List, ℕ, Ptr, null, refl, Ends,
}
use os_lab.Sched.State.{Kernel}
use os_lab.Sched.Class.{SchedClass}
use os_lab.Sched.Contract.Defs.{Contract, Keeps, SameKeys}
use os_lab.Sched.Contract.Switch.{Keeps-refl}
use os_lab.Sched.ListQueue.Defs.{
  length-snoc, has-snoc, length-tail, has-tail, first_null-IsQueue, IsAlone-stable, IsQueue-stable,
  tail, IsQueue, IsAlone,
}
use os_lab.Sched.ListQueue.Moves.{
  left-SameKeys, entered-IsAlone, entered-IsQueue, entered-SameKeys, entered-Keeps, left-IsAlone,
  left-IsAlone_self, left-IsQueue, left-Keeps, entered, left,
}

-- What the two classes have in common.
pub record IsListClass (cls : SchedClass) : Type 0 where
  pub slice : Kernel → Ptr → ℕ
  pub enqueue_runs :
      (k : Kernel) (p : Ptr) → IsAlone k p → cls.enqueue p k ≡ some (entered (slice k p) p k)
  pub dequeue_runs :
      (k : Kernel) (p : Ptr) (ys : List Ptr)
      → IsQueue k (p ∷ ys)
      → cls.dequeue p k ≡ some (left p k)
  pub pick_runs :
      (k : Kernel) (xs : List Ptr) → IsQueue k xs → cls.pick_next k ≡ some (head_or null xs, k)

module _ {cls : SchedClass} (l : IsListClass cls) where
  pub take_lem :
      (k : Kernel) (xs : List Ptr)
      → IsQueue k xs
      → head_or null xs ≢ null
      → Ends (cls.pick_next k) λ (n, k').
        (n ≡ head_or null xs)
        × Keeps k k'
        × Ends (cls.dequeue n k') λ k''.
          Keeps k' k''
          × SameKeys k' k''
          × IsQueue k'' (tail xs)
          × IsAlone k'' n
          × ((q : Ptr) → has q xs ≡ false → IsAlone k q → IsAlone k'' q)
  take_lem k [] is ne = absurd (ne refl)
  take_lem k (p ∷ ys) is ne = (
    (p, k),
    l.pick_runs k (p ∷ ys) is,
    (
      refl,
      Keeps-refl k,
      (
        left p k,
        l.dequeue_runs k p ys is,
        (
          left-Keeps k p,
          left-SameKeys k p,
          left-IsQueue k p ys is,
          left-IsAlone_self k p ys is,
          λ q o a. left-IsAlone k p ys q is o a,
        ),
      ),
    ),
  )

  -- The view is the queue, first to last.
  abbrev pub list_contract : Contract cls
  list_contract = record {
    View = List Ptr;
    members = λ xs. xs;
    Holds = IsQueue;
    Free = IsAlone;
    put = λ k xs p. xs ++ p ∷ [];
    first = head_or null;
    rest = λ k xs. tail xs;
    Holds_stable = IsQueue-stable;
    Free_stable = IsAlone-stable;
    first_null = first_null-IsQueue;
    has-put = λ k xs p q. has-snoc q xs p;
    has-rest = has-tail;
    length-put = λ k xs p. length-snoc xs p;
    length-rest = λ k xs is ne. length-tail xs ne;
    enqueue_law = λ k xs p is a o room. (
      entered (l.slice k p) p k,
      l.enqueue_runs k p a,
      (
        entered-Keeps (l.slice k p) k p,
        entered-SameKeys (l.slice k p) k p,
        entered-IsQueue (l.slice k p) k xs p is a o room,
        λ q ne o' a'. entered-IsAlone (l.slice k p) k xs p q is ne o' a',
      ),
    );
    empty_law = λ k xs is e. l.pick_runs k xs is ∙ ap (λ n. some (n, k)) e;
    take_law = take_lem;
  }
