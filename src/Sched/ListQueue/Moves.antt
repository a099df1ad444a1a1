-- ===== src/Sched/ListQueue/Moves.antt =====
-- The two changes that a list-based class makes: a process goes to the end, or leaves the queue.
use os_lab.Base.{
  ◌++◌, ◌<◌, ◌+◌, length, false, [], ◌≡◌, arith, has, update, ◌∷◌, ◌≢◌, List, ℕ, Ptr, refl, ◌^◌,
}
use os_lab.Sched.State.{increment, decrement, Kernel, run_list, run_queue}
use os_lab.Sched.ListQueue.Defs.{
  add_last-IsQueue, remove-IsAlone, add_last-IsAlone, remove-IsQueue, IsQueue, IsAlone,
}
use os_lab.Sched.Contract.Defs.{Keeps, SameKeys}
use os_lab.Libs.Links.{list_add_before, list_del_init}

-- `proc` goes to the end of the queue, with the given time slice.
abbrev pub entered : ℕ → Ptr → Kernel → Kernel
entered slice proc k = record k {
  run_links = list_add_before run_list proc k.run_links;
  procs = update k.procs proc (record (k.procs proc) { time_slice = slice; rq = run_queue });
  queue = record (k.queue) { proc_num = increment k.queue.proc_num };
}

abbrev pub left : Ptr → Kernel → Kernel
left proc k = record k {
  run_links = list_del_init proc k.run_links;
  queue = record (k.queue) { proc_num = decrement k.queue.proc_num };
}

pub entered-Keeps : (n : ℕ) (k : Kernel) (p : Ptr) → Keeps k (entered n p k)
entered-Keeps n k p = record {
  current_same = refl;
  idleproc_same = refl;
  initproc_same = refl;
  satp_same = refl;
  state_same = λ q. ground arith;
  pgdir_same = λ q. ground arith;
}

pub entered-SameKeys : (n : ℕ) (k : Kernel) (p : Ptr) → SameKeys k (entered n p k)
entered-SameKeys n k p = record {
  pid_same = λ q. ground arith;
  stride_same = λ q. ground arith;
  priority_same = λ q. ground arith;
}

pub entered-IsQueue :
    (n : ℕ) (k : Kernel) (xs : List Ptr) (p : Ptr)
    → IsQueue k xs
    → IsAlone k p
    → has p xs ≡ false
    → length xs + 1 < 2 ^ 32
    → IsQueue (entered n p k) (xs ++ p ∷ [])
entered-IsQueue n k xs p is a out room =
    add_last-IsQueue is (entered n p k) p a.ne_null (ground (arith, a.ne_head)) room refl refl
      (ground arith) (λ q ne. ground arith)

pub entered-IsAlone :
    (n : ℕ) (k : Kernel) (xs : List Ptr) (p q : Ptr)
    → IsQueue k xs
    → q ≢ p
    → has q xs ≡ false
    → IsAlone k q
    → IsAlone (entered n p k) q
entered-IsAlone n k xs p q is ne o a = add_last-IsAlone k (entered n p k) xs p q is refl ne o a

pub left-Keeps : (k : Kernel) (p : Ptr) → Keeps k (left p k)
left-Keeps k p = record {
  current_same = refl;
  idleproc_same = refl;
  initproc_same = refl;
  satp_same = refl;
  state_same = λ q. refl;
  pgdir_same = λ q. refl;
}

pub left-IsQueue :
    (k : Kernel) (p : Ptr) (ys : List Ptr) → IsQueue k (p ∷ ys) → IsQueue (left p k) ys
left-IsQueue k p ys is = (remove-IsQueue [] p ys is (left p k) refl refl (λ q. refl)).0

pub left-IsAlone_self :
    (k : Kernel) (p : Ptr) (ys : List Ptr) → IsQueue k (p ∷ ys) → IsAlone (left p k) p
left-IsAlone_self k p ys is = record {
  ne_null = ground (arith, is.no_null);
  ne_head = ground (arith, is.ring.distinct);
  detached = (remove-IsQueue [] p ys is (left p k) refl refl (λ q. refl)).1;
}

pub left-IsAlone :
    (k : Kernel) (p : Ptr) (ys : List Ptr) (q : Ptr)
    → IsQueue k (p ∷ ys)
    → has q (p ∷ ys) ≡ false
    → IsAlone k q
    → IsAlone (left p k) q
left-IsAlone k p ys q is o a = remove-IsAlone k (left p k) [] p ys q is refl o a

pub left-SameKeys : (k : Kernel) (p : Ptr) → SameKeys k (left p k)
left-SameKeys k p = record {
  pid_same = λ q. refl;
  stride_same = λ q. refl;
  priority_same = λ q. refl;
}
