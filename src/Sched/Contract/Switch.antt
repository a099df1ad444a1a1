-- ===== src/Sched/Contract/Switch.antt =====
-- The parts of `schedule` that belong to the framework: clearing the request and switching.
use os_lab.Base.{Ptr, ◌≡◌, ◌≢◌, refl, Bool, false, ◌&&◌, not, ◌==◌, arith}
use os_lab.Sched.State.{Kernel, set_proc, increment, is_runnable}
use os_lab.Sched.Framework.{lsatp, proc_run}
use os_lab.Sched.Contract.Defs.{SameKeys, Keeps, SameQueue}

-- The state in which `schedule` enqueues: the request to switch has been cleared.
abbrev pub cleared : Kernel → Kernel
cleared k = set_proc k.current (record (k.procs k.current) { need_resched = false }) k

-- Whether the running process goes back to the queue.
abbrev pub goes_back : Kernel → Bool
goes_back k = is_runnable (k.procs k.current).state && not (k.current == k.idleproc)

-- The switch, with the run counted.
abbrev pub switched : Ptr → Kernel → Kernel
switched n k = proc_run n (set_proc n (record (k.procs n) { runs = increment (k.procs n).runs }) k)

pub cleared-SameQueue : (k : Kernel) → SameQueue k (cleared k)
cleared-SameQueue k = record {
  links_same = refl;
  nodes_same = refl;
  queue_same = refl;
  pid_same = λ q. ground arith;
  rq_same = λ q. ground arith;
  slice_same = λ q. ground arith;
  stride_same = λ q. ground arith;
  priority_same = λ q. ground arith;
}

pub cleared-Keeps : (k : Kernel) → Keeps k (cleared k)
cleared-Keeps k = record {
  current_same = refl;
  idleproc_same = refl;
  initproc_same = refl;
  satp_same = refl;
  state_same = λ q. ground arith;
  pgdir_same = λ q. ground arith;
}

pub switched-SameQueue : (k : Kernel) (n : Ptr) → SameQueue k (switched n k)
unfolding proc_run
switched-SameQueue k n = record {
  links_same = ground arith;
  nodes_same = ground arith;
  queue_same = ground arith;
  pid_same = λ q. ground arith;
  rq_same = λ q. ground arith;
  slice_same = λ q. ground arith;
  stride_same = λ q. ground arith;
  priority_same = λ q. ground arith;
}

-- After the switch `n` runs, in its address space, and no process has changed its state.
pub record Runs (k : Kernel) (n : Ptr) (k' : Kernel) : Type 0 where
  pub running : k'.current ≡ n
  pub idleproc_same : k'.idleproc ≡ k.idleproc
  pub address_space : n ≢ k.current → k'.satp ≡ lsatp (k.procs n).pgdir
  pub state_same : (q : Ptr) → (k'.procs q).state ≡ (k.procs q).state

pub switched-Runs : (k k' : Kernel) (n : Ptr) → Keeps k k' → Runs k n (switched n k')
unfolding proc_run
switched-Runs k k' n s = record {
  running = ground arith;
  idleproc_same = ground arith;
  address_space = λ ne. ground (arith, s.pgdir_same n);
  state_same = λ q. ground (arith, s.state_same q);
}

pub cleared-SameKeys : (k : Kernel) → SameKeys k (cleared k)
cleared-SameKeys k = record {
  pid_same = λ q. ground arith;
  stride_same = λ q. ground arith;
  priority_same = λ q. ground arith;
}

pub Keeps-refl : (k : Kernel) → Keeps k k
Keeps-refl k = record {
  current_same = refl;
  idleproc_same = refl;
  initproc_same = refl;
  satp_same = refl;
  state_same = λ q. refl;
  pgdir_same = λ q. refl;
}

pub Keeps-trans : {i j k : Kernel} → Keeps i j → Keeps j k → Keeps i k
Keeps-trans a b = record {
  current_same = ground arith;
  idleproc_same = ground arith;
  initproc_same = ground arith;
  satp_same = ground arith;
  state_same = λ q. ground (arith, a.state_same q, b.state_same q);
  pgdir_same = λ q. ground (arith, a.pgdir_same q, b.pgdir_same q);
}

pub SameKeys-trans : {i j k : Kernel} → SameKeys i j → SameKeys j k → SameKeys i k
SameKeys-trans a b = record {
  pid_same = λ q. ground (arith, a.pid_same q, b.pid_same q);
  stride_same = λ q. ground (arith, a.stride_same q, b.stride_same q);
  priority_same = λ q. ground (arith, a.priority_same q, b.priority_same q);
}

pub SameKeys-refl : (k : Kernel) → SameKeys k k
SameKeys-refl k = record {
  pid_same = λ q. refl;
  stride_same = λ q. refl;
  priority_same = λ q. refl;
}

pub switched-SameKeys : (k : Kernel) (n : Ptr) → SameKeys k (switched n k)
switched-SameKeys k n =
    let s = switched-SameQueue k n in
    record {
      pid_same = λ q. s.pid_same q;
      stride_same = λ q. s.stride_same q;
      priority_same = λ q. s.priority_same q;
    }
