-- ===== src/Sched/Tests/Kill.antt =====
-- Process 14 of the small system waits for a child, and is killed.
use os_lab.Base.{Ptr, null, ◌≡◌, ◌≢◌, ◌⊎◌, ◌==◌, if◌then◌else◌, refl, [], ◌∷◌, true, Ends, arith}
use os_lab.Base.Int.{pos}
use os_lab.Mm.Areas.Defs.{e_inval}
use os_lab.Sched.State.{Kernel}
use os_lab.Sched.RoundRobin.{default_sched_class}
use os_lab.Sched.Contract.Schedule.{Ready}
use os_lab.Sched.ListQueue.Defs.{IsQueue}
use os_lab.Sched.ListQueue.Classes.{rr_contract}
use os_lab.Sched.Tests.Data.{procs_with, fourteen_sleeps, system}
use os_lab.Process.Table.{Processes}
use os_lab.Process.Hash.{pid_hashfn}
use os_lab.Process.Kill.{do_kill, Killed, is_exiting, e_killed, do_kill_lem}

abbrev dozing : Kernel
dozing = system λ q. record (procs_with fourteen_sleeps (λ q. q) q) { wait_state = 2147483649 }

dozing-IsQueue : IsQueue dozing (11 ∷ 12 ∷ [])
dozing-IsQueue = record {
  ring = record { chain = ground arith; distinct = ground arith };
  no_null = refl;
  counted = refl;
  few = omega arith;
  bound = λ q i. refl;
}

dozing-Ready : Ready rr_contract dozing (11 ∷ 12 ∷ [])
dozing-Ready = record {
  holds = dozing-IsQueue;
  few = omega arith;
  idle_out = refl;
  current_out = refl;
  current_free =
      λ ne. record { ne_null = omega arith; ne_head = omega arith; detached = ground arith };
}

-- The bucket of pid 14 is list 670.
abbrev by_pid : Processes
by_pid = record {
  procs = dozing.procs;
  list_links = record { prev = λ q. q; next = λ q. q };
  hash_links = record {
    prev = λ q. if q == 670 then 14 else if q == 14 then 670 else q;
    next = λ q. if q == 670 then 14 else if q == 14 then 670 else q;
  };
  nr_process = 4;
}

do_kill_lem_example : Ends (do_kill default_sched_class 2 (pos 14) by_pid dozing) λ (n, k').
    ((◌≡◌ {A = Ptr} 14 null) × (n ≡ e_inval) × (k' ≡ dozing))
    ⊎ ((◌≢◌ {A = Ptr} 14 null)
        × (((is_exiting (dozing.procs 14) ≡ true) × (n ≡ e_killed) × (k' ≡ dozing))
            ⊎ ((n ≡ pos 0) × Killed rr_contract dozing (11 ∷ 12 ∷ []) dozing-Ready 14 k')))
unfolding pid_hashfn
do_kill_lem_example =
    do_kill_lem rr_contract dozing (11 ∷ 12 ∷ []) dozing-Ready 2 (pos 14) by_pid (14 ∷ [])
      (record { chain = ground arith; distinct = ground arith }) (omega arith) (λ there i. refl)
      (λ there e ne. (
        (λ h. omega arith),
        record { ne_null = omega arith; ne_head = omega arith; detached = ground arith },
        refl,
      ))
      (omega arith)
