-- ===== src/Process/Pid/Scan.antt =====
-- One round of the loop of `get_pid` over the processes.
use os_lab.Base.{
  Ptr, [], ◌∷◌, ℕ, suc, if◌then◌else◌, List, ◌≤◌, ◌<◌, ◌+◌, ◌-◌, ◌≡◌, leb, ◌&&◌, ◌||◌, Bool, true,
  false, refl, arith, Bool-cases, inl, inr, length, has, ==_ne, Ends,
}
use os_lab.Base.Int.{ℤ, pos, negsuc}
use os_lab.Libs.Links.{list_next}
use os_lab.Libs.Links.Ring.{Chain}
use os_lab.Sched.State.{Proc}
use os_lab.Process.Table.{Processes, proc_list}
use os_lab.Process.Hash.{same_int, max_pid}
use os_lab.Process.Pid.Defs.{Pids, look_at, restart, scan}

-- Whether a process of the list has the pid.
abbrev pub used : (Ptr → Proc) → ℕ → List Ptr → Bool
used procs n [] = false
used procs n (x ∷ xs) = same_int (procs x).pid (pos n) || used procs n xs

-- No process has a pid from last_pid up to next_safe.
pub record Unused (procs : Ptr → Proc) (xs : List Ptr) (g : Pids) : Type 0 where
  pub low : 0 < g.last_pid
  pub gap : g.last_pid < g.next_safe
  pub high : g.next_safe ≤ max_pid
  pub free : (n : ℕ) → g.last_pid ≤ n → n < g.next_safe → used procs n xs ≡ false

-- How often last_pid has to move on until it is `f`.
abbrev pub distance : ℕ → ℕ → ℕ
distance f a = if leb a f then f - a else f + 8191 - a

pub record Narrower (f : ℕ) (g g' : Pids) : Type 0 where
  pub lower : g.last_pid ≤ g'.last_pid
  pub upper : g'.next_safe ≤ g.next_safe
  pub gap : g'.last_pid < g'.next_safe
  pub nearer : distance f g'.last_pid ≤ distance f g.last_pid

look_at-Narrower :
    (p : ℤ) (f : ℕ) (g : Pids)
    → g.last_pid < g.next_safe
    → g.next_safe ≤ max_pid
    → same_int p (pos f) ≡ false
    → (same_int p (pos g.last_pid) && leb g.next_safe (g.last_pid + 1)) ≡ false
    → Narrower f g (look_at p g)
look_at-Narrower (pos m) f g gap hi ne on = record {
  lower = ground arith;
  upper = ground arith;
  gap = ground arith;
  nearer = ground arith;
}
look_at-Narrower (negsuc m) f g gap hi ne on = record {
  lower = ground arith;
  upper = ground arith;
  gap = ground arith;
  nearer = ground arith;
}

-- The pid that was looked at is not among those left.
look_at-out :
    (p : ℤ) (g : Pids) (n : ℕ)
    → (look_at p g).last_pid ≤ n
    → n < (look_at p g).next_safe
    → same_int p (pos n) ≡ false
look_at-out (pos m) g n lo hi = ground arith
look_at-out (negsuc m) g n lo hi = refl

-- How a round ends: either with a pid that none of the processes has, or at `repeat`, closer to `f`.
pub record Passed (procs : Ptr → Proc) (xs : List Ptr) (f : ℕ) (g g' : Pids) : Type 0 where
  pub narrower : Narrower f g g'
  pub unused : (n : ℕ) → g'.last_pid ≤ n → n < g'.next_safe → used procs n xs ≡ false

pub record Restarted (f : ℕ) (g g' : Pids) : Type 0 where
  pub low : 0 < g'.last_pid
  pub below : g'.last_pid < max_pid
  pub all_safe : g'.next_safe ≡ max_pid
  pub nearer : distance f g'.last_pid < distance f g.last_pid

abbrev pub Round : (Ptr → Proc) → List Ptr → ℕ → Pids → Bool → Pids → Type 0
Round procs xs f g false g' = Passed procs xs f g g'
Round procs xs f g true g' = Restarted f g g'

restart-Restarted :
    (p : ℤ) (f : ℕ) (g : Pids)
    → 0 < g.last_pid
    → g.last_pid < max_pid
    → 0 < f
    → f < max_pid
    → same_int p (pos f) ≡ false
    → same_int p (pos g.last_pid) ≡ true
    → Restarted f g (restart g)
restart-Restarted (pos m) f g low hi lf hf ne same = record {
  low = ground arith;
  below = ground arith;
  all_safe = refl;
  nearer = ground arith;
}
restart-Restarted (negsuc m) f g low hi lf hf ne same = absurd (ground arith)

Narrower-trans : (f : ℕ) (g g1 g2 : Pids) → Narrower f g g1 → Narrower f g1 g2 → Narrower f g g2
Narrower-trans f g g1 g2 a b = record {
  lower = omega (arith, a.lower, b.lower);
  upper = omega (arith, a.upper, b.upper);
  gap = b.gap;
  nearer = omega (arith, a.nearer, b.nearer);
}

module _ (t : Processes) (f : ℕ) (lf : 0 < f) (hf : f < max_pid) where
  -- The rest of the round, with the process before it.
  Round-step :
      (x : Ptr) (xs : List Ptr) (g g' : Pids) (again : Bool)
      → Narrower f g (look_at (t.procs x).pid g)
      → Round t.procs xs f (look_at (t.procs x).pid g) again g'
      → Round t.procs (x ∷ xs) f g again g'
  Round-step x xs g g' false n r = record {
    narrower = Narrower-trans f g (look_at (t.procs x).pid g) g' n r.narrower;
    unused = λ k lo hi.
        rw
          (
            look_at-out (t.procs x).pid g k (omega (arith, r.narrower.lower))
                (omega (arith, r.narrower.upper)),
            r.unused k lo hi,
          )
          refl;
  }
  Round-step x xs g g' true n r = record {
    low = r.low;
    below = r.below;
    all_safe = r.all_safe;
    nearer = omega (arith, r.nearer, n.nearer);
  }

  pub scan_lem :
      (n : ℕ) (a : Ptr) (xs : List Ptr) (g : Pids)
      → Chain t.list_links a xs proc_list
      → has proc_list xs ≡ false
      → length xs < n
      → 0 < g.last_pid
      → g.last_pid < g.next_safe
      → g.next_safe ≤ max_pid
      → used t.procs f xs ≡ false
      → Ends (scan n a g t) λ (again, g'). Round t.procs xs f g again g'
  unfolding scan list_next
  scan_lem Prim.Native.Nat.zero a xs g c o lt low gap high u = absurd (omega arith)
  scan_lem (suc n) a [] g c o lt low gap high u = rw (c.0) (
    (false, g),
    refl,
    record {
      narrower = record {
        lower = omega arith;
        upper = omega arith;
        gap = gap;
        nearer = omega arith;
      };
      unused = λ k lo hi. refl;
    },
  )
  scan_lem (suc n) a (x ∷ xs) g c o lt low gap high u =
      let p = (t.procs x).pid in
      let not_f : same_int p (pos f) ≡ false = ground arith in
      let nx = ==_ne x proc_list (ground arith) in
      elim (Bool-cases (same_int p (pos g.last_pid) && leb g.next_safe (g.last_pid + 1))) [
        | inl again ↦
            rw (c.0, nx, again)
              (
                (true, restart g),
                refl,
                restart-Restarted p f g low (omega arith) lf hf not_f (ground arith),
              )
        | inr on ↦
            let nar = look_at-Narrower p f g gap high not_f on in
            let ((again, g'), run, r) =
              scan_lem n x xs (look_at p g) c.2 (ground arith) (omega arith)
                (omega (arith, nar.lower)) nar.gap (omega (arith, nar.upper)) (ground arith) in
            rw (c.0, nx, on, run) ((again, g'), refl, Round-step x xs g g' again nar r)
      ]
