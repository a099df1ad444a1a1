-- ===== src/Sched/Tests/Data.antt =====
-- A small system: process 10 is the idle one, 13 runs, 11 and 12 wait.
use os_lab.Base.{Ptr, ℕ, suc, ◌+◌, ◌*◌, ◌%◌, ◌^◌, [], false, ◌==◌, if◌then◌else◌}
use os_lab.Base.Int.{pos}
use os_lab.Libs.Links.{Links}
use os_lab.Libs.SkewHeap.Defs.{Nodes}
use os_lab.Sched.State.{Kernel, Proc, ProcState, run_queue}

-- Each address is a process; its priority and its state are given.
abbrev pub procs_with : (Ptr → ProcState) → (Ptr → ℕ) → Ptr → Proc
procs_with st prio q = record {
  state = st q;
  pid = pos q;
  runs = 0;
  kstack = 4096 * q;
  need_resched = false;
  parent = 1;
  mm = 0;
  tf = 0;
  pgdir = 8192 * q;
  flags = 0;
  name = [];
  exit_code = pos 0;
  wait_state = 0;
  cptr = 0;
  yptr = 0;
  optr = 0;
  rq = run_queue;
  time_slice = 3;
  lab6_stride = (4294966000 + 100 * q) % 2 ^ 32;
  lab6_priority = suc (prio q);
}

abbrev pub all_runnable : Ptr → ProcState
all_runnable q = ProcState.proc_runnable

abbrev pub fourteen_sleeps : Ptr → ProcState
fourteen_sleeps q = if q == 14 then ProcState.proc_sleeping else ProcState.proc_runnable

abbrev pub alone : Links
alone = record { prev = λ q. q; next = λ q. q }

abbrev pub two_links : Links
two_links = record {
  prev = λ q. if q == 1 then 12 else if q == 11 then 1 else if q == 12 then 11 else q;
  next = λ q. if q == 1 then 11 else if q == 11 then 12 else if q == 12 then 1 else q;
}

-- Process 11 at the root, 12 below it.
abbrev pub two_nodes : Nodes
two_nodes = record {
  parent = λ q. if q == 12 then 11 else 0;
  left = λ q. if q == 11 then 12 else 0;
  right = λ q. 0;
}

abbrev pub system : (Ptr → Proc) → Kernel
system procs = record {
  procs = procs;
  timer_links = alone;
  run_links = two_links;
  run_nodes = two_nodes;
  queue = record { proc_num = 2; max_time_slice = 5; lab6_run_pool = 11 };
  current = 13;
  idleproc = 10;
  initproc = 1;
  satp = 0;
}
