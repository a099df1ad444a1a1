-- ===== src/Sched/ListQueue/Defs.antt =====
-- The run queue of the list-based classes (round robin and FIFO) as a sequence of processes.
use Prim.Native.Nat.{
  ◌+◌, suc, ◌+◌, suc, ◌+◌, suc, ◌+◌, suc, ◌+◌, suc, ◌+◌, suc, ◌+◌, suc, ◌+◌, suc, ◌+◌, suc, ◌+◌,
  suc, ◌+◌, suc, ◌+◌, suc, ◌+◌, suc, ◌+◌, suc,
}
use os_lab.Base.{
  Ptr, null, suc, ◌+◌, ◌<◌, ◌^◌, ◌≡◌, ◌≢◌, refl, true, false, ◌||◌, List, [], ◌∷◌, ◌++◌, arith, has,
  length, length-append, has-append, head_or, ◌==◌, if◌then◌else◌,
}
use os_lab.Libs.Links.{list_add_before, list_del_init, list_next}
use os_lab.Libs.Links.Ring.{Ring, next-head_or}
use os_lab.Libs.Links.Edit.{list_add_before-Ring}
use os_lab.Libs.Links.Detach.{
  list_add_before-SameAt, list_del_init-SameAt, SameAt-Detached, Detached, list_del_init-Ring,
}
use os_lab.Sched.Contract.Defs.{SameQueue}
use os_lab.Sched.State.{Kernel, run_list, run_queue, increment, decrement}

-- The queue holds `xs`, first to last.
pub record IsQueue (k : Kernel) (xs : List Ptr) : Type 0 where
  pub ring : Ring k.run_links run_list xs
  pub no_null : has null xs ≡ false
  pub counted : k.queue.proc_num ≡ length xs
  pub few : length xs < 2 ^ 32
  pub bound : (q : Ptr) → has q xs ≡ true → (k.procs q).rq ≡ run_queue

module _ {k : Kernel} {xs : List Ptr} (is : IsQueue k xs) where
  pub add_last-IsQueue :
      (k' : Kernel) (p : Ptr)
      → p ≢ null
      → has p (run_list ∷ xs) ≡ false
      → length xs + 1 < 2 ^ 32
      → k'.run_links ≡ list_add_before run_list p k.run_links
      → k'.queue.proc_num ≡ increment k.queue.proc_num
      → (k'.procs p).rq ≡ run_queue
      → ((q : Ptr) → q ≢ p → (k'.procs q).rq ≡ (k.procs q).rq)
      → IsQueue k' (xs ++ p ∷ [])
  add_last-IsQueue k' p ne out room links count here others = record {
    ring = rw links (list_add_before-Ring xs p is.ring out);
    no_null = ground (arith, is.no_null, has-append null xs (p ∷ []));
    counted = omega (arith, is.counted, length-append xs (p ∷ []));
    few = omega (arith, length-append xs (p ∷ []));
    bound = λ q i. ground (arith, is.bound q, others q, has-append q xs (p ∷ []));
  }

  pub first_of-IsQueue : list_next k.run_links run_list ≡ head_or run_list xs
  unfolding list_next
  first_of-IsQueue = next-head_or k.run_links run_list xs run_list is.ring.chain

module _ {k : Kernel} (xs : List Ptr) (p : Ptr) (ys : List Ptr)
    (is : IsQueue k (xs ++ p ∷ ys)) where
  pub remove-IsQueue :
      (k' : Kernel)
      → k'.run_links ≡ list_del_init p k.run_links
      → k'.queue.proc_num ≡ decrement k.queue.proc_num
      → ((q : Ptr) → (k'.procs q).rq ≡ (k.procs q).rq)
      → IsQueue k' (xs ++ ys) × Detached k'.run_links p
  remove-IsQueue k' links count same =
      let (ring, alone) = list_del_init-Ring xs p ys is.ring in
      (
        record {
          ring = rw links ring;
          no_null = ground (arith, is.no_null, has-append null xs (p ∷ ys), has-append null xs ys);
          counted =
              omega (arith, is.counted, is.few, length-append xs (p ∷ ys), length-append xs ys);
          few = omega (arith, is.few, length-append xs (p ∷ ys), length-append xs ys);
          bound = λ q i.
              ground (arith, is.bound q, same q, has-append q xs (p ∷ ys), has-append q xs ys);
        },
        rw links alone,
      )

-- A process on its own can be put in the queue.
pub record IsAlone (k : Kernel) (p : Ptr) : Type 0 where
  pub ne_null : p ≢ null
  pub ne_head : p ≢ run_list
  pub detached : Detached k.run_links p

pub IsQueue-stable : (k k' : Kernel) (xs : List Ptr) → SameQueue k k' → IsQueue k xs → IsQueue k' xs
IsQueue-stable k k' xs s is = record {
  ring = rw s.links_same is.ring;
  no_null = is.no_null;
  counted = rw s.queue_same is.counted;
  few = is.few;
  bound = λ q i. ground (arith, is.bound q, s.rq_same q);
}

pub IsAlone-stable : (k k' : Kernel) (p : Ptr) → SameQueue k k' → IsAlone k p → IsAlone k' p
IsAlone-stable k k' p s is = record {
  ne_null = is.ne_null;
  ne_head = is.ne_head;
  detached = rw s.links_same is.detached;
}

pub first_null-IsQueue :
    (k : Kernel) (xs : List Ptr) (q : Ptr)
    → IsQueue k xs
    → head_or null xs ≡ null
    → has q xs ≡ false
first_null-IsQueue k [] q is e = refl
first_null-IsQueue k (x ∷ xs) q is e = ground (arith, is.no_null)

abbrev pub tail : List Ptr → List Ptr
tail [] = []
tail (x ∷ xs) = xs

pub has-tail :
    (k : Kernel) (xs : List Ptr) (q : Ptr)
    → IsQueue k xs
    → has q (tail xs) ≡ (if q == head_or null xs then false else has q xs)
has-tail k [] q is = ground arith
has-tail k (x ∷ xs) q is = ground (arith, is.ring.distinct)

-- Putting in or taking out leaves the processes outside the queue on their own.
pub add_last-IsAlone :
    (k k' : Kernel) (xs : List Ptr) (p q : Ptr)
    → IsQueue k xs
    → k'.run_links ≡ list_add_before run_list p k.run_links
    → q ≢ p
    → has q xs ≡ false
    → IsAlone k q
    → IsAlone k' q
add_last-IsAlone k k' xs p q is links ne o a = record {
  ne_null = a.ne_null;
  ne_head = a.ne_head;
  detached = rw links (
      SameAt-Detached (list_add_before-SameAt xs p q is.ring (ground (arith, a.ne_head)) ne)
        a.detached);
}

pub remove-IsAlone :
    (k k' : Kernel) (xs : List Ptr) (p : Ptr) (ys : List Ptr) (q : Ptr)
    → IsQueue k (xs ++ p ∷ ys)
    → k'.run_links ≡ list_del_init p k.run_links
    → has q (xs ++ p ∷ ys) ≡ false
    → IsAlone k q
    → IsAlone k' q
remove-IsAlone k k' xs p ys q is links o a = record {
  ne_null = a.ne_null;
  ne_head = a.ne_head;
  detached = rw links (
      SameAt-Detached (list_del_init-SameAt xs p ys q is.ring (ground (arith, a.ne_head)))
        a.detached);
}

pub length-tail : (xs : List Ptr) → head_or null xs ≢ null → suc (length (tail xs)) ≡ length xs
length-tail [] ne = absurd (ne refl)
length-tail (x ∷ xs) ne = refl

pub has-snoc : (q : Ptr) (xs : List Ptr) (p : Ptr) → has q (xs ++ p ∷ []) ≡ ((q == p) || has q xs)
has-snoc q xs p = ground (arith, has-append q xs (p ∷ []))

pub length-snoc : (xs : List Ptr) (p : Ptr) → length (xs ++ p ∷ []) ≡ suc (length xs)
length-snoc xs p = omega (arith, length-append xs (p ∷ []))
