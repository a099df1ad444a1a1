-- ===== src/Process/Kill.antt =====
-- `do_kill` of kern/process/proc.c: the process is marked, and woken if its sleep can be interrupted.
use os_lab.Base.{
  Ptr, null, ℕ, ◌+◌, ◌-◌, ◌/◌, ◌%◌, ◌^◌, ◌<◌, ◌≡◌, ◌≢◌, ◌⊎◌, ◌==◌, Bool, true, false, Bool-cases,
  inl, inr, if◌then◌else◌, List, has, length, Option, some, ◌>>=◌, refl, arith, Ends,
}
use os_lab.Base.Int.{ℤ, pos, negsuc}
use os_lab.Libs.Links.Ring.{Ring}
use os_lab.Mm.Areas.Defs.{e_inval}
use os_lab.Sched.State.{Kernel, Proc, set_proc, is_runnable, is_zombie}
use os_lab.Sched.Class.{SchedClass}
use os_lab.Sched.Framework.{wakeup_proc}
use os_lab.Sched.Contract.Defs.{SameQueue, Contract}
use os_lab.Sched.Contract.Schedule.{Ready}
use os_lab.Sched.Contract.Wakeup.{Woken, woken_view, wakeup_law}
use os_lab.Process.Table.{Processes}
use os_lab.Process.Hash.{
  find_proc, first_with, in_range, hash_list, pid_hashfn, find_proc-first_with,
}

-- -E_KILLED
abbrev pub e_killed : ℤ
e_killed = negsuc 8

-- flags & PF_EXITING
abbrev pub is_exiting : Proc → Bool
is_exiting p = p.flags % 2 == 1

-- wait_state & WT_INTERRUPTED
abbrev pub is_interrupted : Proc → Bool
is_interrupted p = p.wait_state / 2 ^ 31 % 2 == 1

-- flags |= PF_EXITING
abbrev pub mark_exiting : Ptr → Kernel → Kernel
mark_exiting p k =
    set_proc p (record (k.procs p) { flags = (k.procs p).flags - (k.procs p).flags % 2 + 1 }) k

-- The table is that of the kernel's processes.
unfoldable pub do_kill : SchedClass → (fuel : ℕ) → ℤ → Processes → Kernel → Option (ℤ × Kernel)
do_kill cls fuel pid t k = do
  proc ← find_proc fuel pid (record t { procs = k.procs })
  if proc == null
      then some (e_inval, k)
      else if is_exiting (k.procs proc)
      then some (e_killed, k)
      else (do
        k' ←
            if is_interrupted (k.procs proc)
            then wakeup_proc cls proc (mark_exiting proc k)
            else some (mark_exiting proc k)
        some (pos 0, k'))

mark_exiting-SameQueue : (p : Ptr) (k : Kernel) → SameQueue k (mark_exiting p k)
mark_exiting-SameQueue p k = record {
  links_same = refl;
  nodes_same = refl;
  queue_same = refl;
  pid_same = λ q. ground arith;
  rq_same = λ q. ground arith;
  slice_same = λ q. ground arith;
  stride_same = λ q. ground arith;
  priority_same = λ q. ground arith;
}

same_state : (p : Ptr) (k : Kernel) → ((mark_exiting p k).procs p).state ≡ (k.procs p).state
same_state p k = ground arith

module _ {cls : SchedClass} (c : Contract cls) (k : Kernel) (v : c.View) (r : Ready c k v) where
  mark_exiting-Ready : (p : Ptr) → Ready c (mark_exiting p k) v
  mark_exiting-Ready p = record {
    holds = c.Holds_stable k (mark_exiting p k) v (mark_exiting-SameQueue p k) r.holds;
    few = r.few;
    idle_out = r.idle_out;
    current_out = r.current_out;
    current_free = λ ni.
        c.Free_stable k (mark_exiting p k) k.current (mark_exiting-SameQueue p k)
          (r.current_free ni);
  }

  -- What `do_kill` leaves when it marks `p`.
  pub record Killed (p : Ptr) (k' : Kernel) : Type 0 where
    pub was_not : is_exiting (k.procs p) ≡ false
    pub sleeps_on : is_interrupted (k.procs p) ≡ false → k' ≡ mark_exiting p k
    pub woken :
        is_interrupted (k.procs p) ≡ true
        → (wakeup_proc cls p (mark_exiting p k) ≡ some k')
          × Woken (mark_exiting p k) p k'
          × Ready c k' (woken_view c (mark_exiting p k) v p)

  module _ (fuel : ℕ) (pid : ℤ) (t : Processes) (xs : List Ptr)
      (ring : Ring t.hash_links (hash_list (pid_hashfn pid)) xs) (enough : length xs < fuel) where
    abbrev pub target : Ptr
    target = if in_range pid then first_with k.procs pid xs else null

    wakes :
        target ≢ null
        → (target ≢ null
            → is_interrupted (k.procs target) ≡ true
            → is_zombie (k.procs target).state ≡ false)
        → (target ≢ null
            → is_runnable (k.procs target).state ≡ false
            → target ≢ k.current
            → (target ≢ k.idleproc) × c.Free k target × (has target (c.members v) ≡ false))
        → length (c.members v) + 2 < 2 ^ 32
        → is_interrupted (k.procs target) ≡ true
        → Ends (wakeup_proc cls target (mark_exiting target k)) λ k'.
          Ready c k' (woken_view c (mark_exiting target k) v target)
          × Woken (mark_exiting target k) target k'
    wakes there z out room up =
        let same = same_state target k in
        wakeup_law c (mark_exiting target k) v target (mark_exiting-Ready target)
          (rw same (z there up))
          (λ e ne.
            let (ni, free, absent) = out there (rw same at e) ne in
            (
              ni,
              c.Free_stable k (mark_exiting target k) target (mark_exiting-SameQueue target k) free,
              absent,
            ))
          room

    -- Over any class that keeps the contract, from a state whose queue is sound and has fewer than
    -- 2 ^ 32 - 2 processes, with fuel above the length of the pid's bucket, if the bucket has a
    -- process for the pid, let the first of them be no zombie if its sleep can be interrupted, and
    -- be in no queue if it cannot run and is not the running process. Then do_kill returns:
    -- -E_INVAL with nothing changed if there is no such process; -E_KILLED with nothing changed if
    -- it was marked before; otherwise 0, and the process is marked, which is all if its sleep
    -- cannot be interrupted, and if it can, the marked process is woken, so that it can run, no
    -- other process changes its state, and the queue is sound.
    pub do_kill_lem :
        (target ≢ null
          → is_interrupted (k.procs target) ≡ true
          → is_zombie (k.procs target).state ≡ false)
        → (target ≢ null
            → is_runnable (k.procs target).state ≡ false
            → target ≢ k.current
            → (target ≢ k.idleproc) × c.Free k target × (has target (c.members v) ≡ false))
        → length (c.members v) + 2 < 2 ^ 32
        → Ends (do_kill cls fuel pid t k) λ (n, k').
          ((target ≡ null) × (n ≡ e_inval) × (k' ≡ k))
          ⊎ ((target ≢ null)
              × (((is_exiting (k.procs target) ≡ true) × (n ≡ e_killed) × (k' ≡ k))
                  ⊎ ((n ≡ pos 0) × Killed target k')))
    unfolding do_kill
    do_kill_lem z out room =
        let found = find_proc-first_with fuel pid (record t { procs = k.procs }) xs ring enough in
        elim (Bool-cases (target == null)) [
          | inl nil ↦ rw (found, nil) ((e_inval, k), refl, inl (ground (arith, nil), refl, refl))
          | inr ne ↦ elim (Bool-cases (is_exiting (k.procs target))) [
            | inl e ↦
                rw (found, ne, e)
                  ((e_killed, k), refl, inr (ground (arith, ne), inl (refl, refl, refl)))
            | inr e ↦ elim (Bool-cases (is_interrupted (k.procs target))) [
              | inr asleep ↦
                  rw (found, ne, e, asleep)
                    (
                      (pos 0, mark_exiting target k),
                      refl,
                      inr (
                        ground (arith, ne),
                        inr (
                          refl,
                          record {
                            was_not = e;
                            sleeps_on = λ u. refl;
                            woken = λ u. absurd (ground (arith, asleep, u));
                          },
                        ),
                      ),
                    )
              | inl up ↦
                  let (k', run, (ready, woken)) = wakes (ground (arith, ne)) z out room up in
                  rw (found, ne, e, up, run)
                    (
                      (pos 0, k'),
                      refl,
                      inr (
                        ground (arith, ne),
                        inr (
                          refl,
                          record {
                            was_not = e;
                            sleeps_on = λ u. absurd (ground (arith, u, up));
                            woken = λ u. (run, woken, ready);
                          },
                        ),
                      ),
                    )
            ]
          ]
        ]
