-- ===== src/Sched/Start.antt =====
-- What `sched_init` sets up, for each of the five classes.
use os_lab.Base.{◌≡◌, refl, [], arith}
use os_lab.Libs.Links.{Links, list_init}
use os_lab.Libs.Links.Detach.{list_init-Ring}
use os_lab.Libs.SkewHeap.Tree.{leaf}
use os_lab.Sched.State.{Kernel}
use os_lab.Sched.Framework.{sched_init}
use os_lab.Sched.RoundRobin.{default_sched_class, rr_init}
use os_lab.Sched.Fifo.{fifo_sched_class, fifo_init}
use os_lab.Sched.ListQueue.Defs.{IsQueue}
use os_lab.Sched.Pool.Defs.{pool_init}
use os_lab.Sched.Pool.Hpf.{hpf_sched_class, hpf_init}
use os_lab.Sched.Pool.Sjf.{sjf_sched_class, sjf_init}
use os_lab.Sched.Pool.Stride.{stride_sched_class, stride_init}
use os_lab.Sched.Pool.Queue.{IsPool}

empty_IsQueue :
    (k : Kernel) (links : Links)
    → k.run_links ≡ list_init 1 links
    → k.queue.proc_num ≡ 0
    → IsQueue k []
empty_IsQueue k links e n = record {
  ring = rw e (list_init-Ring links 1);
  no_null = refl;
  counted = n;
  few = omega arith;
  bound = λ q i. ground arith;
}

empty_IsPool : (k : Kernel) → k.queue.proc_num ≡ 0 → k.queue.lab6_run_pool ≡ 0 → IsPool k leaf
empty_IsPool k n e = record {
  heap = record { shape = e; parents = tt; proper = tt };
  counted = n;
  few = omega arith;
  bound = λ q i. ground arith;
  weighted = λ q i. ground arith;
}

-- sched_init leaves a sound empty queue under each of the five classes, whatever was in memory
-- before.
pub sched_init-empty :
    (k : Kernel)
    → IsQueue (sched_init default_sched_class k) []
      × IsQueue (sched_init fifo_sched_class k) []
      × IsPool (sched_init hpf_sched_class k) leaf
      × IsPool (sched_init sjf_sched_class k) leaf
      × IsPool (sched_init stride_sched_class k) leaf
unfolding sched_init rr_init fifo_init hpf_init sjf_init stride_init pool_init
sched_init-empty k = (
  empty_IsQueue _ k.run_links refl refl,
  empty_IsQueue _ k.run_links refl refl,
  empty_IsPool _ refl refl,
  empty_IsPool _ refl refl,
  empty_IsPool _ refl refl,
)
