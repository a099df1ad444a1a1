-- ===== src/Sched/Tests/Lists.antt =====
-- Round robin and FIFO on the small system, waking a process, and the ticks of a slice.
use os_lab.Base.{Ptr, ◌≡◌, refl, List, [], ◌∷◌, true, Ends, arith}
use os_lab.Sched.State.{Kernel}
use os_lab.Sched.Framework.{schedule, wakeup_proc}
use os_lab.Sched.RoundRobin.{default_sched_class}
use os_lab.Sched.Fifo.{fifo_sched_class}
use os_lab.Sched.Contract.Switch.{Runs}
use os_lab.Sched.Contract.Schedule.{Ready, Outcome, schedule_law}
use os_lab.Sched.Contract.Wakeup.{Woken, wakeup_law}
use os_lab.Sched.ListQueue.Defs.{IsQueue}
use os_lab.Sched.ListQueue.Classes.{rr_contract, fifo_contract}
use os_lab.Sched.ListQueue.Turn.{turns}
use os_lab.Sched.ListQueue.Policies.{rr_waits_at_most, fifo_schedule}
use os_lab.Sched.Ticks.{ticks, ticks-need_resched, rr_IsPreemptive}
use os_lab.Sched.Tests.Data.{procs_with, fourteen_sleeps, system}

abbrev pub small : Kernel
small = system (procs_with fourteen_sleeps (λ q. q))

small-IsQueue : IsQueue small (11 ∷ 12 ∷ [])
small-IsQueue = record {
  ring = record { chain = ground arith; distinct = ground arith };
  no_null = refl;
  counted = refl;
  few = omega arith;
  bound = λ q i. refl;
}

pub small_rr-Ready : Ready rr_contract small (11 ∷ 12 ∷ [])
small_rr-Ready = record {
  holds = small-IsQueue;
  few = omega arith;
  idle_out = refl;
  current_out = refl;
  current_free =
      λ ne. record { ne_null = omega arith; ne_head = omega arith; detached = ground arith };
}

small_fifo-Ready : Ready fifo_contract small (11 ∷ 12 ∷ [])
small_fifo-Ready = record {
  holds = small-IsQueue;
  few = omega arith;
  idle_out = refl;
  current_out = refl;
  current_free =
      λ ne. record { ne_null = omega arith; ne_head = omega arith; detached = ground arith };
}

schedule_law_example :
    Ends (schedule fifo_sched_class small) λ k'. Outcome fifo_contract small (11 ∷ 12 ∷ []) k'
schedule_law_example = schedule_law fifo_contract small (11 ∷ 12 ∷ []) small_fifo-Ready

fifo_schedule_example :
    Ends
      (schedule fifo_sched_class small)
      λ k'. Runs small 11 k' × Ready fifo_contract k' (12 ∷ 13 ∷ [])
fifo_schedule_example = fifo_schedule small (11 ∷ 12 ∷ []) small_fifo-Ready

-- The running process is last in the line, and has its turn again after three.
rr_waits_at_most_example :
    Ends
      (turns default_sched_class 3 small)
      λ k'. (k'.current ≡ 13) × ((ys : List Ptr) × Ready rr_contract k' ys)
rr_waits_at_most_example =
    rr_waits_at_most (11 ∷ 12 ∷ []) 13 [] small (11 ∷ 12 ∷ []) small_rr-Ready refl

wakeup_law_example :
    Ends
      (wakeup_proc default_sched_class 14 small)
      λ k'. Ready rr_contract k' (11 ∷ 12 ∷ 14 ∷ []) × Woken small 14 k'
wakeup_law_example =
    wakeup_law rr_contract small (11 ∷ 12 ∷ []) 14 small_rr-Ready refl
      (λ e ne. (
        (λ h. omega arith),
        record { ne_null = omega arith; ne_head = omega arith; detached = ground arith },
        refl,
      ))
      (omega arith)

-- Its slice is 3.
ticks-need_resched_example : ((ticks default_sched_class 3 13 small).procs 13).need_resched ≡ true
ticks-need_resched_example =
    ticks-need_resched default_sched_class rr_IsPreemptive 2 13 small (omega arith)
