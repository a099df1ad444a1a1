-- ===== src/Process/Pid/Unique.antt =====
-- The pid that `get_pid` returns is unused.
use os_lab.Base.{
  ==_ne, has, update, update_ne, update_self, Ptr, [], ◌∷◌, ℕ, suc, if◌then◌else◌, some, List, ◌≤◌,
  ◌<◌, ◌+◌, ◌≡◌, ◌≢◌, leb, true, false, refl, arith, Bool-cases, inl, inr, length, Ends, sym, ◌∙◌,
}
use os_lab.Base.Int.{ℤ, pos, negsuc}
use os_lab.Libs.Links.Ring.{Ring}
use os_lab.Sched.State.{Proc}
use os_lab.Process.Table.{Processes, proc_list}
use os_lab.Process.Hash.{same_int, max_pid}
use os_lab.Process.Pid.Defs.{Pids, find_pid, get_pid}
use os_lab.Process.Pid.Scan.{used, Unused, distance, Passed, Round, scan_lem}

-- The pids may be any between two calls that leave the gap above last_pid unused.
pub record Settled (procs : Ptr → Proc) (xs : List Ptr) (g : Pids) : Type 0 where
  pub high : g.next_safe ≤ max_pid
  pub free : (n : ℕ) → g.last_pid < n → n < g.next_safe → used procs n xs ≡ false

Passed-Unused :
    (procs : Ptr → Proc) (xs : List Ptr) (f : ℕ) (g g' : Pids)
    → 0 < g.last_pid
    → g.next_safe ≤ max_pid
    → Passed procs xs f g g'
    → Unused procs xs g'
Passed-Unused procs xs f g g' low high k = record {
  low = omega (arith, k.narrower.lower);
  gap = k.narrower.gap;
  high = omega (arith, k.narrower.upper);
  free = k.unused;
}

find_pid_lem :
    (r fuel : ℕ) (g : Pids) (t : Processes) (xs : List Ptr) (f : ℕ)
    → Ring t.list_links proc_list xs
    → length xs < fuel
    → 0 < g.last_pid
    → g.last_pid < g.next_safe
    → g.next_safe ≤ max_pid
    → 0 < f
    → f < max_pid
    → used t.procs f xs ≡ false
    → distance f g.last_pid < r
    → Ends (find_pid r fuel g t) λ g'. Unused t.procs xs g'
unfolding find_pid
find_pid_lem Prim.Native.Nat.zero fuel g t xs f ring lt low gap high lf hf u near =
    absurd (omega arith)
find_pid_lem (suc r) fuel g t xs f ring lt low gap high lf hf u near =
    let ((again, g'), run, k) =
      scan_lem t f lf hf fuel proc_list xs g ring.chain ring.distinct.0 lt low gap high u in
    let next =
      elim again
        as (λ b.
          Round t.procs xs f g b g'
          → Ends (if b then find_pid r fuel g' t else some g') λ g2. Unused t.procs xs g2) [
            | false ↦ λ k'. (g', refl, Passed-Unused t.procs xs f g g' low high k')
            | true ↦ λ k'.
                find_pid_lem r fuel g' t xs f ring lt k'.low (omega (arith, k'.below, k'.all_safe))
                  (omega (arith, k'.all_safe)) lf hf u (omega (arith, k'.nearer))
          ] in
    rw run (next k)

module _ (procs : Ptr → Proc) where
  -- The processes that have another pid.
  abbrev without : ℕ → List Ptr → List Ptr
  without k [] = []
  without k (x ∷ xs) = if same_int (procs x).pid (pos k) then without k xs else x ∷ without k xs

  same_int_ne : (p : ℤ) (k n : ℕ) → same_int p (pos k) ≡ true → n ≢ k → same_int p (pos n) ≡ false
  same_int_ne (pos m) k n e ne = ground arith
  same_int_ne (negsuc m) k n e ne = refl

  used-without : (k n : ℕ) (xs : List Ptr) → n ≢ k → used procs n (without k xs) ≡ used procs n xs
  used-without k n [] ne = refl
  used-without k n (x ∷ xs) ne = elim (Bool-cases (same_int (procs x).pid (pos k))) [
    | inl e ↦ rw (e, same_int_ne (procs x).pid k n e ne) (used-without k n xs ne)
    | inr e ↦ rw (e, used-without k n xs ne) refl
  ]

  length-without_le : (k : ℕ) (xs : List Ptr) → length (without k xs) ≤ length xs
  length-without_le k [] = omega arith
  length-without_le k (x ∷ xs) = ground (arith, length-without_le k xs)

  length-without_lt :
      (k : ℕ) (xs : List Ptr) → used procs k xs ≡ true → length (without k xs) < length xs
  length-without_lt k [] u = ground arith
  length-without_lt k (x ∷ xs) u = ground (arith, length-without_le k xs, length-without_lt k xs)

  -- Among k pids one is unused if there are fewer processes.
  unused_pid :
      (k : ℕ) (xs : List Ptr)
      → length xs < k
      → (n : ℕ) × (0 < n) × (n ≤ k) × (used procs n xs ≡ false)
  unused_pid Prim.Native.Nat.zero xs lt = absurd (omega arith)
  unused_pid (suc k) xs lt = elim (Bool-cases (used procs (suc k) xs)) [
    | inr no_one ↦ (suc k, omega arith, omega arith, no_one)
    | inl someone ↦
        let (n, pn, le, u) =
          unused_pid k (without (suc k) xs) (omega (arith, length-without_lt (suc k) xs someone)) in
        (n, pn, omega arith, sym (used-without (suc k) n xs (omega arith)) ∙ u)
  ]

-- The three ways to a pid.
chosen :
    (fuel : ℕ) (g : Pids) (t : Processes) (xs : List Ptr) (f : ℕ)
    → Ring t.list_links proc_list xs
    → length xs < fuel
    → Settled t.procs xs g
    → 0 < f
    → f < max_pid
    → used t.procs f xs ≡ false
    → Ends
        (if leb max_pid (g.last_pid + 1)
          then find_pid max_pid fuel (record { last_pid = 1; next_safe = max_pid }) t
          else if leb g.next_safe (g.last_pid + 1)
          then find_pid max_pid fuel (record { last_pid = g.last_pid + 1; next_safe = max_pid }) t
          else some (record g { last_pid = g.last_pid + 1 }))
        λ g'. Unused t.procs xs g'
chosen fuel g t xs f ring lt s lf hf u = elim (Bool-cases (leb max_pid (g.last_pid + 1))) [
  | inl wrap ↦ rw wrap (
      find_pid_lem max_pid fuel (record { last_pid = 1; next_safe = max_pid }) t xs f ring lt
        (omega arith) (omega arith) (omega arith) lf hf u (ground arith))
  | inr on ↦ elim (Bool-cases (leb g.next_safe (g.last_pid + 1))) [
    | inl unsafe ↦
        rw (on, unsafe)
          (find_pid_lem max_pid fuel (record { last_pid = g.last_pid + 1; next_safe = max_pid }) t
            xs f ring lt (omega arith) (ground arith) (omega arith) lf hf u (ground arith))
    | inr safe ↦
        rw (on, safe)
          (
            record g { last_pid = g.last_pid + 1 },
            refl,
            record {
              low = omega arith;
              gap = ground arith;
              high = s.high;
              free = λ n lo hi. s.free n (omega arith) hi;
            },
          )
  ]
]

used-update :
    (procs : Ptr → Proc) (x : Ptr) (v : Proc) (n : ℕ) (xs : List Ptr)
    → has x xs ≡ false
    → used (update procs x v) n xs ≡ used procs n xs
used-update procs x v n [] o = refl
used-update procs x v n (y ∷ ys) o =
    rw (update_ne procs x y v (ground arith), used-update procs x v n ys (ground arith)) refl

-- The table with a new process that has the pid.
Unused-Settled :
    (procs : Ptr → Proc) (x : Ptr) (xs : List Ptr) (g : Pids)
    → has x xs ≡ false
    → Unused procs xs g
    → Settled (update procs x (record (procs x) { pid = pos g.last_pid })) (x ∷ xs) g
Unused-Settled procs x xs g o k = record {
  high = k.high;
  free = λ n lo hi.
      let v : Proc = record (procs x) { pid = pos g.last_pid } in
      let u = k.free n (omega arith) hi in
      rw (update_self procs x v, used-update procs x v n xs o, u, ==_ne g.last_pid n (ground arith))
        refl;
}

-- With fewer than 8191 processes in the table, fuel above their number, and the gap above the last
-- pid unused, get_pid ends, the pid that it returns is above 0, below MAX_PID and that of no
-- process, and once a process that is not in the table has that pid and is in the table, the gap
-- above the last pid is unused again.
pub get_pid_lem :
    (fuel : ℕ) (g : Pids) (t : Processes) (xs : List Ptr) (x : Ptr)
    → Ring t.list_links proc_list xs
    → length xs < fuel
    → length xs < 8191
    → Settled t.procs xs g
    → has x xs ≡ false
    → Ends (get_pid fuel g t) λ (pid, g').
      (0 < pid)
      × (pid < max_pid)
      × (used t.procs pid xs ≡ false)
      × (pid ≡ g'.last_pid)
      × Settled (update t.procs x (record (t.procs x) { pid = pos pid })) (x ∷ xs) g'
unfolding get_pid
get_pid_lem fuel g t xs x ring lt few s o =
    let (f, pf, le, u) = unused_pid t.procs 8191 xs few in
    let (g', run, k) = chosen fuel g t xs f ring lt s pf (omega arith) u in
    rw run (
      (g'.last_pid, g'),
      refl,
      (
        k.low,
        omega (arith, k.gap, k.high),
        k.free g'.last_pid (omega arith) k.gap,
        refl,
        Unused-Settled t.procs x xs g' o k,
      ),
    )
