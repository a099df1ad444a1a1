-- ===== src/Process/Pid/Defs.antt =====
-- `get_pid` of kern/process/proc.c.
use os_lab.Base.{
  Ptr, ℕ, suc, ◌>>=◌, if◌then◌else◌, Option, some, none, ◌+◌, ◌==◌, leb, ◌&&◌, Bool, true, false,
}
use os_lab.Base.Int.{ℤ, pos, pos_part, ltb_ℤ}
use os_lab.Libs.Links.{list_next}
use os_lab.Process.Table.{Processes, proc_list}
use os_lab.Process.Hash.{same_int, max_pid}

-- The two static variables, which hold pids or MAX_PID.
pub record Pids : Type 0 where
  pub last_pid : ℕ
  pub next_safe : ℕ

-- What the loop makes of the two for a process with this pid, if it goes on.
abbrev pub look_at : ℤ → Pids → Pids
look_at pid g =
    if same_int pid (pos g.last_pid)
    then record g { last_pid = g.last_pid + 1 }
    else if ltb_ℤ (pos g.last_pid) pid && ltb_ℤ pid (pos g.next_safe)
    then record g { next_safe = pos_part pid }
    else g

-- What stands before `goto repeat`.
abbrev pub restart : Pids → Pids
restart g = record {
  last_pid = if leb max_pid (g.last_pid + 1) then 1 else g.last_pid + 1;
  next_safe = max_pid;
}

-- The loop over the processes behind `le`, and whether it ends in `goto repeat`; `none` means that
-- the fuel ran out.
unfoldable pub scan : (fuel : ℕ) → (le : Ptr) → Pids → Processes → Option (Bool × Pids)
scan Prim.Native.Nat.zero le g t = none
scan (suc f) le g t =
    let next = list_next t.list_links le in
    let pid = (t.procs next).pid in
    let later = scan f next (look_at pid g) t in
    if next == proc_list
    then some (false, g)
    else if same_int pid (pos g.last_pid) && leb g.next_safe (g.last_pid + 1)
    then some (true, restart g)
    else later

-- The rounds from `repeat` on.
unfoldable pub find_pid : (rounds fuel : ℕ) → Pids → Processes → Option Pids
unfolding scan
find_pid Prim.Native.Nat.zero fuel g t = none
find_pid (suc r) fuel g t = do
  (again, g') ← scan fuel proc_list g t
  let later = find_pid r fuel g' t
  if again then later else some g'

unfoldable pub get_pid : (fuel : ℕ) → Pids → Processes → Option (ℕ × Pids)
unfolding find_pid
get_pid fuel g t =
    let pid = g.last_pid + 1 in
    let first : Pids = record { last_pid = 1; next_safe = max_pid } in
    let next : Pids = record { last_pid = pid; next_safe = max_pid } in
    do
      g' ←
          if leb max_pid pid
          then find_pid max_pid fuel first t
          else if leb g.next_safe pid
          then find_pid max_pid fuel next t
          else some (record g { last_pid = pid })
      some (g'.last_pid, g')
