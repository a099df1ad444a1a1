-- ===== src/Sched/Pool/Keys.antt =====
-- The comparisons of HPF and SJF: lexicographic orders on the priority and the pid.
use os_lab.Base.Int.{ltb_ℤ}
use os_lab.Base.{◌&&◌, ◌==◌, ◌||◌, ltb, arith, ◌≡◌, List, Ptr}
use os_lab.Libs.SkewHeap.Tree.{before}
use os_lab.Libs.SkewHeap.Order.{IsOrder}
use os_lab.Sched.State.{Proc}
use os_lab.Sched.Pool.Hpf.{proc_prio_comp_f}
use os_lab.Sched.Pool.Sjf.{proc_sjf_comp_f}
use os_lab.Sched.Pool.Policy.{IsKeyed}

module _ (procs : Ptr → Proc) (a b : Ptr) where
  pub hpf_before : before (proc_prio_comp_f procs) a b ≡ (
      ltb (procs b).lab6_priority (procs a).lab6_priority
      || (((procs a).lab6_priority == (procs b).lab6_priority)
          && ltb_ℤ (procs a).pid (procs b).pid))
  unfolding proc_prio_comp_f
  hpf_before = ground arith

  pub sjf_before : before (proc_sjf_comp_f procs) a b ≡ (
      ltb (procs a).lab6_priority (procs b).lab6_priority
      || (((procs a).lab6_priority == (procs b).lab6_priority)
          && ltb_ℤ (procs a).pid (procs b).pid))
  unfolding proc_sjf_comp_f
  sjf_before = ground arith

pub hpf_IsOrder : (procs : Ptr → Proc) (xs : List Ptr) → IsOrder (proc_prio_comp_f procs) xs
hpf_IsOrder procs xs = record {
  asym = λ a b i j h. ground (arith, hpf_before procs a b, hpf_before procs b a);
  trans = λ a b c i j k h h'.
      ground (arith, hpf_before procs b a, hpf_before procs c b, hpf_before procs c a);
}

pub sjf_IsOrder : (procs : Ptr → Proc) (xs : List Ptr) → IsOrder (proc_sjf_comp_f procs) xs
sjf_IsOrder procs xs = record {
  asym = λ a b i j h. ground (arith, sjf_before procs a b, sjf_before procs b a);
  trans = λ a b c i j k h h'.
      ground (arith, sjf_before procs b a, sjf_before procs c b, sjf_before procs c a);
}

pub hpf_IsKeyed : IsKeyed proc_prio_comp_f
hpf_IsKeyed = record {
  keyed = λ f g a b p s w p' s' w'. ground (arith, hpf_before f a b, hpf_before g a b);
}

pub sjf_IsKeyed : IsKeyed proc_sjf_comp_f
sjf_IsKeyed = record {
  keyed = λ f g a b p s w p' s' w'. ground (arith, sjf_before f a b, sjf_before g a b);
}
