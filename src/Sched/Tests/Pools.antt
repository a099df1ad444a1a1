-- ===== src/Sched/Tests/Pools.antt =====
-- HPF, SJF and stride scheduling on the small system. The stride of 14 has wrapped around.
use os_lab.Base.{update, Ptr, ℕ, ◌-◌, ◌≤◌, ◌≡◌, refl, List, [], ◌∷◌, true, Ends, has, arith}
use os_lab.Libs.SkewHeap.Tree.{Tree, leaf, node, nodes}
use os_lab.Libs.SkewHeap.Heap.{IsHeap, single}
use os_lab.Libs.SkewHeap.Order.{IsOrdered, IsOrder}
use os_lab.Sched.State.{Kernel, Proc}
use os_lab.Sched.Framework.{schedule}
use os_lab.Sched.Contract.Schedule.{Ready, has-waiting}
use os_lab.Sched.Pool.Hpf.{hpf_sched_class, proc_prio_comp_f}
use os_lab.Sched.Pool.Sjf.{sjf_sched_class, proc_sjf_comp_f}
use os_lab.Sched.Pool.Stride.{stride_sched_class, proc_stride_comp_f, advance}
use os_lab.Sched.Pool.Queue.{IsPool}
use os_lab.Sched.Pool.Contract.{pool_contract}
use os_lab.Sched.Pool.Classes.{hpf_IsPoolClass, sjf_IsPoolClass, stride_IsPoolClass}
use os_lab.Sched.Pool.Best.{OneOf, waits, hpf_schedule, sjf_schedule}
use os_lab.Sched.Pool.Window.{offset, Window, stride_IsOrder}
use os_lab.Sched.Pool.Turn.{contest, stride_schedule}
use os_lab.Sched.Tests.Data.{procs_with, all_runnable, two_nodes, system}

-- The priorities rise with the address, or fall.
abbrev pub rising : Kernel
rising = system (procs_with all_runnable (λ q. q))

abbrev falling : Kernel
falling = system (procs_with all_runnable (λ q. 100 - q))

abbrev pub two : Tree
two = node (single 12) 11 leaf

two-IsHeap : IsHeap two_nodes 11 two
two-IsHeap = record { shape = ground arith; parents = ground arith; proper = ground arith }

rising-IsPool : IsPool rising two
rising-IsPool = record {
  heap = two-IsHeap;
  counted = refl;
  few = omega arith;
  bound = λ q i. refl;
  weighted = λ q i. omega arith;
}

falling-IsPool : IsPool falling two
falling-IsPool = record {
  heap = two-IsHeap;
  counted = refl;
  few = omega arith;
  bound = λ q i. refl;
  weighted = λ q i. omega arith;
}

falling_hpf-Ready : Ready (pool_contract hpf_IsPoolClass) falling two
falling_hpf-Ready = record {
  holds = falling-IsPool;
  few = omega arith;
  idle_out = refl;
  current_out = refl;
  current_free = λ ne. record { ne_null = omega arith; weight = omega arith };
}

falling-IsOrdered : IsOrdered (proc_prio_comp_f falling.procs) two
unfolding proc_prio_comp_f
falling-IsOrdered = ((λ q i. ground arith), (λ q i. ground arith), ground arith, tt)

hpf_schedule_example : Ends (schedule hpf_sched_class falling) λ k'.
    (rest : Tree) × Ready (pool_contract hpf_IsPoolClass) k' rest
    × IsOrdered (proc_prio_comp_f k'.procs) rest
    × OneOf falling two k'.current
    × ((q : Ptr)
        → waits falling two q ≡ true
        → (falling.procs q).lab6_priority ≤ (falling.procs k'.current).lab6_priority)
hpf_schedule_example = hpf_schedule falling two falling_hpf-Ready falling-IsOrdered

rising_sjf-Ready : Ready (pool_contract sjf_IsPoolClass) rising two
rising_sjf-Ready = record {
  holds = rising-IsPool;
  few = omega arith;
  idle_out = refl;
  current_out = refl;
  current_free = λ ne. record { ne_null = omega arith; weight = omega arith };
}

rising-IsOrdered : IsOrdered (proc_sjf_comp_f rising.procs) two
unfolding proc_sjf_comp_f
rising-IsOrdered = ((λ q i. ground arith), (λ q i. ground arith), ground arith, tt)

sjf_schedule_example : Ends (schedule sjf_sched_class rising) λ k'.
    (rest : Tree) × Ready (pool_contract sjf_IsPoolClass) k' rest
    × IsOrdered (proc_sjf_comp_f k'.procs) rest
    × OneOf rising two k'.current
    × ((q : Ptr)
        → waits rising two q ≡ true
        → (rising.procs k'.current).lab6_priority ≤ (rising.procs q).lab6_priority)
sjf_schedule_example = sjf_schedule rising two rising_sjf-Ready rising-IsOrdered

pub rising_stride-Ready : Ready (pool_contract stride_IsPoolClass) rising two
rising_stride-Ready = record {
  holds = rising-IsPool;
  few = omega arith;
  idle_out = refl;
  current_out = refl;
  current_free = λ ne. record { ne_null = omega arith; weight = omega arith };
}

rising_stride-IsOrdered : IsOrdered (proc_stride_comp_f rising.procs) two
unfolding proc_stride_comp_f
rising_stride-IsOrdered = ((λ q i. ground arith), (λ q i. ground arith), ground arith, tt)

-- The strides of 11, 12 and 13, seen from that of 11: the last one has wrapped around.
window :
    (xs : List Ptr)
    → ((q : Ptr) → has q xs ≡ true → has q (11 ∷ 12 ∷ 13 ∷ []) ≡ true)
    → Window rising.procs xs 4294967100
window xs i = record {
  base_lt = omega arith;
  stride_lt = λ q j. omega arith;
  within = λ q j. ground (arith, i q j);
}

stride_IsOrder_example : IsOrder (proc_stride_comp_f rising.procs) (11 ∷ 12 ∷ 13 ∷ [])
stride_IsOrder_example =
    stride_IsOrder rising.procs (11 ∷ 12 ∷ 13 ∷ []) 4294967100
      (window (11 ∷ 12 ∷ 13 ∷ []) (λ q i. i))

stride_schedule_example : Ends (schedule stride_sched_class rising) λ k'.
    (rest : Tree) × Ready (pool_contract stride_IsPoolClass) k' rest
    × IsOrdered (proc_stride_comp_f k'.procs) rest
    × ((q : Ptr)
        → has q (nodes (contest rising two)) ≡ true
        → offset 4294967100 (rising.procs k'.current).lab6_stride
          ≤ offset 4294967100 (rising.procs q).lab6_stride)
    × ((base' : ℕ) × Window k'.procs (nodes (contest k' rest)) base')
stride_schedule_example =
    stride_schedule rising two 4294967100 rising_stride-Ready rising_stride-IsOrdered (
      window (nodes (contest rising two))
        (λ q i. ground (arith, has-waiting (pool_contract stride_IsPoolClass) rising two q)))

abbrev eleven_moves : Ptr → Proc
eleven_moves = update rising.procs 11 (advance (rising.procs 11))
