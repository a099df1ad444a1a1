-- ===== src/Sched/ListQueue/Policies.antt =====
-- What round robin and FIFO choose, and how long a process waits under round robin.
use os_lab.Base.{Ptr, suc, ◌≡◌, List, ◌∷◌, ◌++◌, length, head_or, Ends}
use os_lab.Sched.State.{Kernel}
use os_lab.Sched.Framework.{schedule}
use os_lab.Sched.RoundRobin.{default_sched_class}
use os_lab.Sched.Fifo.{fifo_sched_class}
use os_lab.Sched.Contract.Switch.{Runs}
use os_lab.Sched.Contract.Schedule.{Ready}
use os_lab.Sched.ListQueue.Defs.{tail}
use os_lab.Sched.ListQueue.Classes.{rr_IsListClass, fifo_IsListClass, rr_contract, fifo_contract}
use os_lab.Sched.ListQueue.Turn.{line, turns, list_schedule, waits_at_most}

-- Under round robin, from a state whose queue is sound, a process with n others before it in the
-- line runs after exactly n + 1 turns of schedule, whatever the others are, and none of those
-- turns stops the kernel.
pub rr_waits_at_most :
    (front : List Ptr) (p : Ptr) (back : List Ptr) (k : Kernel) (xs : List Ptr)
    → Ready rr_contract k xs
    → line k xs ≡ front ++ p ∷ back
    → Ends
        (turns default_sched_class (suc (length front)) k)
        λ k'. (k'.current ≡ p) × ((ys : List Ptr) × Ready rr_contract k' ys)
rr_waits_at_most = waits_at_most rr_IsListClass

-- Under FIFO, from a state whose queue is sound, schedule succeeds, runs the first of the line
-- (the queue, and the running process after it if it can go on), or the idle process if the line
-- is empty, and leaves the others in the queue in their order.
pub fifo_schedule :
    (k : Kernel) (xs : List Ptr)
    → Ready fifo_contract k xs
    → Ends
        (schedule fifo_sched_class k)
        λ k'. Runs k (head_or k.idleproc (line k xs)) k' × Ready fifo_contract k' (tail (line k xs))
fifo_schedule = list_schedule fifo_IsListClass
