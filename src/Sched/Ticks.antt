-- ===== src/Sched/Ticks.antt =====
-- The time slice: what the ticks of the clock do to a process that keeps running.
use os_lab.Base.{Ptr, ℕ, suc, ◌-◌, ◌≡◌, ◌≢◌, ◌||◌, leb, arith, refl, ==_ne, ap, ◌∙◌}
use os_lab.Sched.State.{Kernel, Proc, spend_slice, set_proc}
use os_lab.Sched.Class.{SchedClass}
use os_lab.Sched.Framework.{sched_class_proc_tick}
use os_lab.Sched.Pool.Hpf.{hpf_sched_class, hpf_proc_tick}
use os_lab.Sched.Pool.Sjf.{sjf_sched_class, sjf_proc_tick}
use os_lab.Sched.Pool.Stride.{stride_sched_class, stride_proc_tick}
use os_lab.Sched.RoundRobin.{default_sched_class, rr_proc_tick}

-- `n` ticks of the clock while `proc` runs.
unfoldable pub ticks : SchedClass → ℕ → Ptr → Kernel → Kernel
unfolding sched_class_proc_tick
ticks cls Prim.Native.Nat.zero proc k = k
ticks cls (suc n) proc k = ticks cls n proc (sched_class_proc_tick cls proc k)

-- A class whose tick is the shared one.
pub record IsPreemptive (cls : SchedClass) : Type 0 where
  pub tick_is : (p : Ptr) (k : Kernel) → cls.proc_tick p k ≡ set_proc p (spend_slice (k.procs p)) k

spend_first :
    (p : Proc)
    → ((spend_slice p).time_slice ≡ p.time_slice - 1)
      × ((spend_slice p).need_resched ≡ (p.need_resched || leb p.time_slice 1))
unfolding spend_slice
spend_first p = (ground arith, ground arith)

tick_runs :
    (cls : SchedClass) (c : IsPreemptive cls) (p : Ptr) (k : Kernel)
    → p ≢ k.idleproc
    → sched_class_proc_tick cls p k ≡ set_proc p (spend_slice (k.procs p)) k
unfolding sched_class_proc_tick
tick_runs cls c p k ne = rw (==_ne p k.idleproc ne) (c.tick_is p k)

ticked_first :
    (p : Ptr) (k : Kernel)
    → ((set_proc p (spend_slice (k.procs p)) k).procs p ≡ spend_slice (k.procs p))
ticked_first p k = ground arith

ticks_step :
    (cls : SchedClass) (c : IsPreemptive cls) (n : ℕ) (p : Ptr) (k : Kernel)
    → p ≢ k.idleproc
    → ticks cls (suc n) p k ≡ ticks cls n p (set_proc p (spend_slice (k.procs p)) k)
unfolding ticks
ticks_step cls c n p k ne = ap (ticks cls n p) (tick_runs cls c p k ne)

ticks_none : (cls : SchedClass) (p : Ptr) (k : Kernel) → ticks cls 0 p k ≡ k
unfolding ticks
ticks_none cls p k = refl

-- Under a class with the shared tick, after n + 1 ticks a process that is not the idle one asks
-- for a switch exactly when its slice was at most n + 1, or it had asked before.
pub ticks-need_resched :
    (cls : SchedClass)
    → IsPreemptive cls
    → (n : ℕ) (p : Ptr) (k : Kernel) → p ≢ k.idleproc
    → ((ticks cls (suc n) p k).procs p).need_resched
      ≡ ((k.procs p).need_resched || leb (k.procs p).time_slice (suc n))
ticks-need_resched cls c Prim.Native.Nat.zero p k ne =
    rw
      (
        ticks_step cls c 0 p k ne,
        ticks_none cls p (set_proc p (spend_slice (k.procs p)) k),
        ticked_first p k,
      )
      (spend_first (k.procs p)).1
ticks-need_resched cls c (suc n) p k ne =
    let k' = set_proc p (spend_slice (k.procs p)) k in
    let first = spend_first (k.procs p) in
    ap (λ (j : Kernel). (j.procs p).need_resched) (ticks_step cls c (suc n) p k ne)
    ∙ ticks-need_resched cls c n p k' ne
    ∙ ap (λ (q : Proc). q.need_resched || leb q.time_slice (suc n)) (ticked_first p k)
    ∙ ground (arith, first.0, first.1)

pub rr_IsPreemptive : IsPreemptive default_sched_class
unfolding rr_proc_tick
rr_IsPreemptive = record { tick_is = λ p k. refl }

pub hpf_IsPreemptive : IsPreemptive hpf_sched_class
unfolding hpf_proc_tick
hpf_IsPreemptive = record { tick_is = λ p k. refl }

pub sjf_IsPreemptive : IsPreemptive sjf_sched_class
unfolding sjf_proc_tick
sjf_IsPreemptive = record { tick_is = λ p k. refl }

pub stride_IsPreemptive : IsPreemptive stride_sched_class
unfolding stride_proc_tick
stride_IsPreemptive = record { tick_is = λ p k. refl }
