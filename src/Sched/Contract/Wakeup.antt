-- ===== src/Sched/Contract/Wakeup.antt =====
-- `wakeup_proc`, over any class that keeps the contract.
use os_lab.Base.{
  Ptr, ◌+◌, ◌<◌, ◌^◌, ◌≡◌, ◌≢◌, ◌∙◌, true, false, length, has, some, ◌==◌, if◌then◌else◌, arith,
  Ends, Bool-cases, inl, inr, refl, ==_ne, subst, sym,
}
use os_lab.Sched.State.{Kernel, ProcState, proc_runnable, is_runnable, is_zombie, set_proc}
use os_lab.Sched.Class.{SchedClass}
use os_lab.Sched.Framework.{wakeup_proc}
use os_lab.Sched.Contract.Defs.{SameQueue, Contract}
use os_lab.Sched.Contract.Schedule.{Ready}

abbrev pub woken : Ptr → Kernel → Kernel
woken p k = set_proc p (record (k.procs p) { state = proc_runnable; wait_state = 0 }) k

woken-SameQueue : (p : Ptr) (k : Kernel) → SameQueue k (woken p k)
woken-SameQueue p k = record {
  links_same = refl;
  nodes_same = refl;
  queue_same = refl;
  pid_same = λ q. ground arith;
  rq_same = λ q. ground arith;
  slice_same = λ q. ground arith;
  stride_same = λ q. ground arith;
  priority_same = λ q. ground arith;
}

-- `p` has been woken, and no other process has changed its state.
pub record Woken (k : Kernel) (p : Ptr) (k' : Kernel) : Type 0 where
  pub current_same : k'.current ≡ k.current
  pub idleproc_same : k'.idleproc ≡ k.idleproc
  pub runnable : (k'.procs p).state ≡ proc_runnable
  pub others : (q : Ptr) → q ≢ p → (k'.procs q).state ≡ (k.procs q).state

runnable_lem : (s : ProcState) → is_runnable s ≡ true → s ≡ proc_runnable
runnable_lem ProcState.proc_uninit e = ground arith
runnable_lem ProcState.proc_sleeping e = ground arith
runnable_lem ProcState.proc_runnable e = refl
runnable_lem ProcState.proc_zombie e = ground arith

module _ {cls : SchedClass} (c : Contract cls) where
  -- The queue after `p` was woken.
  abbrev pub woken_view : Kernel → c.View → Ptr → c.View
  woken_view k v p =
      if is_runnable (k.procs p).state
      then v
      else if p == k.current
      then v
      else c.put (woken p k) v p

  wakeup_runs_already :
      (k : Kernel) (p : Ptr)
      → is_zombie (k.procs p).state ≡ false
      → is_runnable (k.procs p).state ≡ true
      → wakeup_proc cls p k ≡ some k
  unfolding wakeup_proc
  wakeup_runs_already k p z e = rw (z, e)

  wakeup_runs_current :
      (k : Kernel) (p : Ptr)
      → is_zombie (k.procs p).state ≡ false
      → is_runnable (k.procs p).state ≡ false
      → (p == k.current) ≡ true
      → wakeup_proc cls p k ≡ some (woken p k)
  unfolding wakeup_proc
  wakeup_runs_current k p z e s = rw (z, e, s)

  wakeup_runs_other :
      (k : Kernel) (p : Ptr)
      → is_zombie (k.procs p).state ≡ false
      → is_runnable (k.procs p).state ≡ false
      → (p == k.current) ≡ false
      → p ≢ k.idleproc
      → wakeup_proc cls p k ≡ cls.enqueue p (woken p k)
  unfolding wakeup_proc
  wakeup_runs_other k p z e s ne = rw (z, e, s, ==_ne p k.idleproc ne)

  -- Over any class that keeps the contract, with a sound queue of fewer than 2 ^ 32 - 2 processes,
  -- waking a process that is not a zombie does not stop the kernel: a process that can run already
  -- stays where it is, the running one is marked only, and another one, if it is in no queue,
  -- enters the queue; the queue stays sound, the process can run, and no other process changes its
  -- state.
  pub wakeup_law :
      (k : Kernel) (v : c.View) (p : Ptr)
      → Ready c k v
      → is_zombie (k.procs p).state ≡ false
      → (is_runnable (k.procs p).state ≡ false
          → p ≢ k.current
          → (p ≢ k.idleproc) × c.Free k p × (has p (c.members v) ≡ false))
      → length (c.members v) + 2 < 2 ^ 32
      → Ends (wakeup_proc cls p k) λ k'. Ready c k' (woken_view k v p) × Woken k p k'
  wakeup_law k v p r z out room = elim (Bool-cases (is_runnable (k.procs p).state)) [
    | inl e ↦ (
      k,
      wakeup_runs_already k p z e,
      (
        rw e r,
        record {
          current_same = refl;
          idleproc_same = refl;
          runnable = runnable_lem (k.procs p).state e;
          others = λ q ne. refl;
        },
      ),
    )
    | inr e ↦ elim (Bool-cases (p == k.current)) [
      | inl s ↦ (woken p k, wakeup_runs_current k p z e s, (rw (e, s) marked_Ready, marked))
      | inr s ↦
          let (ne, free, absent) = out e (ground arith) in
          let held = c.Holds_stable k (woken p k) v (woken-SameQueue p k) r.holds in
          let free' = c.Free_stable k (woken p k) p (woken-SameQueue p k) free in
          let (k', run, g) = c.enqueue_law (woken p k) v p held free' absent (omega arith) in
          (
            k',
            wakeup_runs_other k p z e s ne ∙ run,
            (
              rw (e, s)
                  (record {
                    holds = g.2;
                    few = omega (arith, c.length-put (woken p k) v p);
                    idle_out = ground (
                      arith,
                      g.0.idleproc_same,
                      c.has-put (woken p k) v p k.idleproc,
                      r.idle_out,
                    );
                    current_out = ground (
                      arith,
                      g.0.current_same,
                      c.has-put (woken p k) v p k.current,
                      r.current_out,
                    );
                    current_free = λ ni.
                        subst (λ m. c.Free k' m) (sym g.0.current_same)
                          (g.3 k.current (ground arith) r.current_out (
                            c.Free_stable k (woken p k) k.current (woken-SameQueue p k) (
                              r.current_free
                                (ground (arith, g.0.current_same, g.0.idleproc_same)))));
                  }),
              record {
                current_same = g.0.current_same;
                idleproc_same = g.0.idleproc_same;
                runnable = g.0.state_same p ∙ marked.runnable;
                others = λ q nq. g.0.state_same q ∙ marked.others q nq;
              },
            ),
          )
    ]
  ]
    where
      marked : Woken k p (woken p k)
      marked = record {
        current_same = refl;
        idleproc_same = refl;
        runnable = ground arith;
        others = λ q ne. ground arith;
      }

      marked_Ready : Ready c (woken p k) v
      marked_Ready = record {
        holds = c.Holds_stable k (woken p k) v (woken-SameQueue p k) r.holds;
        few = r.few;
        idle_out = r.idle_out;
        current_out = r.current_out;
        current_free =
            λ ne. c.Free_stable k (woken p k) k.current (woken-SameQueue p k) (r.current_free ne);
      }
