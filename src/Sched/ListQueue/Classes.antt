-- ===== src/Sched/ListQueue/Classes.antt =====
-- Round robin and FIFO are list-based classes.
use os_lab.Base.{==_ne, arith, length, [], suc, head_or, some, ◌∷◌, ◌≡◌, List, Ptr, null}
use os_lab.Sched.State.{run_list, Kernel, refill_slice}
use os_lab.Sched.RoundRobin.{default_sched_class, rr_enqueue, rr_dequeue, rr_pick_next}
use os_lab.Sched.Fifo.{fifo_sched_class, fifo_enqueue, fifo_dequeue, fifo_pick_next}
use os_lab.Sched.Contract.Defs.{Contract}
use os_lab.Sched.ListQueue.Defs.{first_of-IsQueue, IsQueue, IsAlone}
use os_lab.Sched.ListQueue.Moves.{entered, left}
use os_lab.Sched.ListQueue.Contract.{IsListClass, list_contract}
use os_lab.Libs.Links.Detach.{list_empty-Detached, list_empty-false}

pub rr_enqueue_runs :
    (k : Kernel) (p : Ptr)
    → IsAlone k p
    → rr_enqueue p k
      ≡ some (entered (refill_slice k.queue.max_time_slice (k.procs p).time_slice) p k)
unfolding rr_enqueue
rr_enqueue_runs k p a = rw (list_empty-Detached k.run_links p a.detached)

pub rr_dequeue_runs :
    (k : Kernel) (p : Ptr) (ys : List Ptr) → IsQueue k (p ∷ ys) → rr_dequeue p k ≡ some (left p k)
unfolding rr_dequeue
rr_dequeue_runs k p ys is = rw (list_empty-false [] p ys is.ring, is.bound p (ground arith))

pub rr_pick_runs :
    (k : Kernel) (xs : List Ptr) → IsQueue k xs → rr_pick_next k ≡ some (head_or null xs, k)
unfolding rr_pick_next
rr_pick_runs k [] is = rw (first_of-IsQueue is)
rr_pick_runs k (x ∷ xs) is =
    rw (first_of-IsQueue is, ==_ne x run_list (ground (arith, is.ring.distinct)))

pub fifo_enqueue_runs :
    (k : Kernel) (p : Ptr)
    → IsAlone k p
    → fifo_enqueue p k ≡ some (entered (k.procs p).time_slice p k)
unfolding fifo_enqueue
fifo_enqueue_runs k p a = rw (list_empty-Detached k.run_links p a.detached)

pub fifo_dequeue_runs :
    (k : Kernel) (p : Ptr) (ys : List Ptr) → IsQueue k (p ∷ ys) → fifo_dequeue p k ≡ some (left p k)
unfolding fifo_dequeue
fifo_dequeue_runs k p ys is =
    let e : k.queue.proc_num ≡ suc (length ys) = is.counted in
    rw (list_empty-false [] p ys is.ring, is.bound p (ground arith), e) (ground arith)

pub fifo_pick_runs :
    (k : Kernel) (xs : List Ptr) → IsQueue k xs → fifo_pick_next k ≡ some (head_or null xs, k)
unfolding fifo_pick_next
fifo_pick_runs k [] is = rw (first_of-IsQueue is)
fifo_pick_runs k (x ∷ xs) is =
    rw (first_of-IsQueue is, ==_ne x run_list (ground (arith, is.ring.distinct)))

abbrev pub rr_IsListClass : IsListClass default_sched_class
rr_IsListClass = record {
  slice = λ k p. refill_slice k.queue.max_time_slice (k.procs p).time_slice;
  enqueue_runs = rr_enqueue_runs;
  dequeue_runs = rr_dequeue_runs;
  pick_runs = rr_pick_runs;
}

abbrev pub fifo_IsListClass : IsListClass fifo_sched_class
fifo_IsListClass = record {
  slice = λ k p. (k.procs p).time_slice;
  enqueue_runs = fifo_enqueue_runs;
  dequeue_runs = fifo_dequeue_runs;
  pick_runs = fifo_pick_runs;
}

abbrev pub rr_contract : Contract default_sched_class
rr_contract = list_contract rr_IsListClass

abbrev pub fifo_contract : Contract fifo_sched_class
fifo_contract = list_contract fifo_IsListClass
