-- ===== src/Sched/State.antt =====
-- The scheduler's state: processes, the run queue and its two containers, the running process.
-- kern/process/proc.h and kern/schedule/sched.h. An address names a process and its embedded nodes
-- (`run_link` in `run_links`, `lab6_run_pool` in `run_nodes`), so `le2proc` is the identity.
use os_lab.Base.{
  true, Ptr, ℕ, ◌+◌, ◌-◌, ◌%◌, ◌^◌, Bool, false, ◌||◌, List, update, ◌==◌, ltb, if◌then◌else◌,
}
use os_lab.Base.Int.{ℤ}
use os_lab.Libs.Links.{Links}
use os_lab.Libs.SkewHeap.Defs.{Nodes}

pub data ProcState : Type 0 where
  proc_uninit proc_sleeping proc_runnable proc_zombie : ProcState

abbrev pub is_runnable : ProcState → Bool
is_runnable proc_runnable = true
is_runnable _ = false

abbrev pub is_zombie : ProcState → Bool
is_zombie proc_zombie = true
is_zombie _ = false

-- `runs` is kept as a bit pattern.
pub record Proc : Type 0 where
  pub state : ProcState
  pub pid : ℤ
  pub runs : ℕ
  pub kstack : ℕ
  pub need_resched : Bool
  pub parent : Ptr
  pub mm : Ptr
  pub tf : Ptr
  pub pgdir : ℕ
  pub flags : ℕ
  pub name : List ℕ
  pub exit_code : ℤ
  pub wait_state : ℕ
  pub cptr : Ptr
  pub yptr : Ptr
  pub optr : Ptr
  pub rq : Ptr
  pub time_slice : ℕ
  pub lab6_stride : ℕ
  pub lab6_priority : ℕ

pub record RunQueue : Type 0 where
  pub proc_num : ℕ
  pub max_time_slice : ℕ
  pub lab6_run_pool : Ptr

pub record Kernel : Type 0 where
  pub procs : Ptr → Proc
  pub timer_links : Links
  pub run_links : Links
  pub run_nodes : Nodes
  pub queue : RunQueue
  pub current : Ptr
  pub idleproc : Ptr
  pub initproc : Ptr
  pub satp : ℕ

-- The heads of the two lists, in their stores, and the address of the only run queue, whose list is
-- its first field.
abbrev pub run_list : Ptr
run_list = 1

abbrev pub timer_list : Ptr
timer_list = 1

abbrev pub run_queue : Ptr
run_queue = 1

-- `unsigned int` arithmetic.
abbrev pub increment : ℕ → ℕ
increment n = (n + 1) % 2 ^ 32

abbrev pub decrement : ℕ → ℕ
decrement n = (n + 2 ^ 32 - 1) % 2 ^ 32

abbrev pub set_proc : Ptr → Proc → Kernel → Kernel
set_proc p v k = record k { procs = update k.procs p v }

-- if (time_slice == 0 || time_slice > max_time_slice) time_slice = max_time_slice;
unfoldable pub refill_slice : (max_time_slice time_slice : ℕ) → ℕ
refill_slice max t = if (t == 0) || ltb max t then max else t

-- The tick of every preemptive class: the slice runs down, and at 0 asks for a switch.
unfoldable pub spend_slice : Proc → Proc
spend_slice p =
    let t = if ltb 0 p.time_slice then p.time_slice - 1 else 0 in
    record p { time_slice = t; need_resched = if t == 0 then true else p.need_resched }
