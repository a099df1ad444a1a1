-- ===== src/Process/Tests.antt =====
-- A family: process 20 has the children 23, 22 and 21, the youngest first, and 30 has none.
use os_lab.Base.{update, ◌<◌, ◌≡◌, Ptr, false, [], ◌∷◌, refl, arith, ◌==◌, if◌then◌else◌, ltb, some}
use os_lab.Base.Int.{negsuc, pos}
use os_lab.Sched.State.{Proc, ProcState}
use os_lab.Process.Table.{Processes, set_links, remove_links}
use os_lab.Process.Family.{Children}
use os_lab.Process.Hash.{pid_hashfn_lt, pid_hashfn}
use os_lab.Base.{Ends}
use os_lab.Libs.Links.{list_next}
use os_lab.Process.Pid.Defs.{get_pid, find_pid, scan}
use os_lab.Process.Pid.Scan.{used}
use os_lab.Process.Pid.Unique.{Settled, get_pid_lem}
use os_lab.Process.Links.{IsTable, set_links-Children, remove_links-Children}

abbrev relatives : Ptr → Proc
relatives q = record {
  state = ProcState.proc_runnable;
  pid = pos q;
  runs = 0;
  kstack = 0;
  need_resched = false;
  parent = if ltb q 25 then 20 else 30;
  mm = 0;
  tf = 0;
  pgdir = 0;
  flags = 0;
  name = [];
  exit_code = pos 0;
  wait_state = 0;
  cptr = if q == 20 then 23 else 0;
  yptr = if q == 22 then 23 else if q == 21 then 22 else 0;
  optr = if q == 23 then 22 else if q == 22 then 21 else 0;
  rq = 0;
  time_slice = 0;
  lab6_stride = 0;
  lab6_priority = 1;
}

abbrev table : Processes
table = record {
  procs = relatives;
  list_links = record {
    prev = λ q.
        if q == 1
        then 21
        else if q == 23
        then 1
        else if q == 22
        then 23
        else if q == 21
        then 22
        else q;
    next = λ q.
        if q == 1
        then 23
        else if q == 23
        then 22
        else if q == 22
        then 21
        else if q == 21
        then 1
        else q;
  };
  hash_links = record {
    prev = λ q. if q == 1004 then 21 else if q == 21 then 1004 else q;
    next = λ q. if q == 1004 then 21 else if q == 21 then 1004 else q;
  };
  nr_process = 3;
}

table-IsTable : IsTable table (23 ∷ 22 ∷ 21 ∷ [])
table-IsTable = record {
  ring = record { chain = ground arith; distinct = ground arith };
  counted = refl;
  few = omega arith;
}

twenty-Children : Children relatives 20 (23 ∷ 22 ∷ 21 ∷ [])
twenty-Children = record {
  brood = ground arith;
  distinct = ground arith;
  parent_is = λ q i. ground arith;
}

thirty-Children : Children relatives 30 []
thirty-Children = record { brood = refl; distinct = tt; parent_is = λ q i. ground arith }

set_links-Children_example :
    IsTable (set_links 24 table) (24 ∷ 23 ∷ 22 ∷ 21 ∷ [])
    × Children (set_links 24 table).procs 20 (24 ∷ 23 ∷ 22 ∷ 21 ∷ [])
    × Children (set_links 24 table).procs 30 []
set_links-Children_example =
    set_links-Children table (23 ∷ 22 ∷ 21 ∷ []) 20 (23 ∷ 22 ∷ 21 ∷ []) 24 30 [] table-IsTable
      (omega arith) refl (omega arith) refl twenty-Children refl thirty-Children refl (omega arith)

remove_links-Children_example :
    IsTable (remove_links 22 table) (23 ∷ 21 ∷ [])
    × Children (remove_links 22 table).procs 20 (23 ∷ 21 ∷ [])
    × Children (remove_links 22 table).procs 30 []
remove_links-Children_example =
    remove_links-Children table (23 ∷ []) (21 ∷ []) 20 (23 ∷ []) 22 (21 ∷ []) 30 [] table-IsTable
      twenty-Children thirty-Children (omega arith)

pid_of_minus_one : pid_hashfn (negsuc 0) < 1024
pid_of_minus_one = pid_hashfn_lt (negsuc 0)

-- The last pid was 20, and 21 to 23 are in use.
get_pid_lem_example : Ends (get_pid 4 (record { last_pid = 20; next_safe = 21 }) table) λ (pid, g').
    (0 < pid)
    × (pid < 8192)
    × (used relatives pid (23 ∷ 22 ∷ 21 ∷ []) ≡ false)
    × (pid ≡ g'.last_pid)
    × Settled
        (update relatives 40 (record (relatives 40) { pid = pos pid }))
        (40 ∷ 23 ∷ 22 ∷ 21 ∷ [])
        g'
get_pid_lem_example =
    get_pid_lem 4 (record { last_pid = 20; next_safe = 21 }) table (23 ∷ 22 ∷ 21 ∷ []) 40
      (record { chain = ground arith; distinct = ground arith }) (omega arith) (omega arith)
      (record { high = omega arith; free = λ n lo hi. absurd (omega arith) }) (ground arith)

get_pid_run :
    get_pid 4 (record { last_pid = 20; next_safe = 21 }) table
    ≡ some (24, record { last_pid = 24; next_safe = 8192 })
unfolding get_pid find_pid scan list_next
get_pid_run = refl
