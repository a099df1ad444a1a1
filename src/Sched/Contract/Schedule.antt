-- ===== src/Sched/Contract/Schedule.antt =====
-- `schedule`, over any class that keeps the contract.
use os_lab.Base.{
  ap, sym, subst, ◌≤◌, ◌||◌, ==_ne, inr, ◌∙◌, inl, Ptr, null, ◌+◌, ◌<◌, ◌^◌, ◌≡◌, ◌≢◌, false, true,
  ◌&&◌, length, has, some, ◌==◌, if◌then◌else◌, arith, Ends, Bool-cases,
}
use os_lab.Sched.State.{Kernel}
use os_lab.Sched.Class.{SchedClass}
use os_lab.Sched.Framework.{put_back, take_next, schedule}
use os_lab.Sched.Contract.Defs.{SameKeys, Contract, Keeps}
use os_lab.Sched.Contract.Switch.{
  SameKeys-refl, switched-SameKeys, cleared-SameKeys, SameKeys-trans, switched-SameQueue,
  cleared-Keeps, switched-Runs, Keeps-refl, cleared-SameQueue, Keeps-trans, cleared, goes_back,
  switched, Runs,
}

module _ {cls : SchedClass} (c : Contract cls) where
  -- Between two calls of the scheduler: the queue is sound, and neither the idle process nor the
  -- running one is in it.
  pub record Ready (k : Kernel) (v : c.View) : Type 0 where
    pub holds : c.Holds k v
    pub few : length (c.members v) + 1 < 2 ^ 32
    pub idle_out : has k.idleproc (c.members v) ≡ false
    pub current_out : has k.current (c.members v) ≡ false
    pub current_free : k.current ≢ k.idleproc → c.Free k k.current

  -- The queue that `schedule` chooses from.
  abbrev pub waiting : Kernel → c.View → c.View
  waiting k v = if goes_back k then c.put (cleared k) v k.current else v

  put_back_stays : (k : Kernel) → goes_back k ≡ false → put_back cls k ≡ some (cleared k)
  unfolding put_back
  put_back_stays k e = ground arith

  put_back_goes :
      (k : Kernel) → goes_back k ≡ true → put_back cls k ≡ cls.enqueue k.current (cleared k)
  unfolding put_back
  put_back_goes k e = ground arith

  put_back_law :
      (k : Kernel) (v : c.View)
      → Ready k v
      → Ends (put_back cls k) λ j. Keeps k j × SameKeys k j × c.Holds j (waiting k v)
  put_back_law k v r = elim (Bool-cases (goes_back k)) [
    | inl e ↦
        let held = c.Holds_stable k (cleared k) v (cleared-SameQueue k) r.holds in
        let free =
          c.Free_stable k (cleared k) k.current (cleared-SameQueue k)
            (r.current_free (ground arith)) in
        let (j, run, p) = c.enqueue_law (cleared k) v k.current held free r.current_out r.few in
        (
          j,
          put_back_goes k e ∙ run,
          (Keeps-trans (cleared-Keeps k) p.0, SameKeys-trans (cleared-SameKeys k) p.1, rw e p.2),
        )
    | inr e ↦ (
      cleared k,
      put_back_stays k e,
      (
        cleared-Keeps k,
        cleared-SameKeys k,
        rw e (c.Holds_stable k (cleared k) v (cleared-SameQueue k) r.holds),
      ),
    )
  ]

  -- The pick of `schedule`, and what is left of the queue.
  abbrev pub choice : Kernel → c.View → Ptr
  choice k w = if c.first w == null then k.idleproc else c.first w

  abbrev pub left_over : Kernel → c.View → c.View
  left_over j w = if c.first w == null then w else c.rest j w

  take_empty :
      (j : Kernel) → cls.pick_next j ≡ some (null, j) → take_next cls j ≡ some (j.idleproc, j)
  unfolding take_next
  take_empty j e = rw e

  take_some :
      (j k' k'' : Kernel) (n : Ptr)
      → n ≢ null
      → cls.pick_next j ≡ some (n, k')
      → cls.dequeue n k' ≡ some k''
      → take_next cls j ≡ some (n, k'')
  unfolding take_next
  take_some j k' k'' n ne e d = rw (e, ==_ne n null ne, d)

  take_next_law :
      (j : Kernel) (w : c.View)
      → c.Holds j w
      → Ends (take_next cls j) λ (n, k'').
        (n ≡ choice j w)
        × Keeps j k''
        × c.Holds k'' (left_over j w)
        × (c.first w ≢ null → c.Free k'' n)
        × ((taken : Kernel) × (cls.pick_next j ≡ some (c.first w, taken)) × SameKeys taken k'')
  take_next_law j w h = elim (Bool-cases (c.first w == null)) [
    | inl e ↦ (
      (j.idleproc, j),
      take_empty j (c.empty_law j w h (ground arith)),
      (
        ground arith,
        Keeps-refl j,
        rw e h,
        (λ ne. absurd (ne (ground arith))),
        (
          j,
          c.empty_law j w h (ground arith) ∙ ap (λ m. some (m, j)) (ground arith),
          SameKeys-refl j,
        ),
      ),
    )
    | inr e ↦
        let ((n, k'), pick, p) = c.take_law j w h (ground arith) in
        let (k'', out, q) = p.2 in
        (
          (n, k''),
          take_some j k' k'' n (ground (arith, p.0)) pick out,
          (
            ground (arith, p.0),
            Keeps-trans p.1 q.0,
            rw e q.2,
            (λ ne. q.3),
            (k', pick ∙ ap (λ m. some (m, k')) p.0, q.1),
          ),
        )
  ]

  schedule_runs :
      (k j k'' : Kernel) (n : Ptr)
      → put_back cls k ≡ some j
      → take_next cls j ≡ some (n, k'')
      → schedule cls k ≡ some (switched n k'')
  unfolding schedule
  schedule_runs k j k'' n e d = rw (e, d)

  -- What `schedule` ends in: `via` is the state in between, with the queue complete.
  pub record Outcome (k : Kernel) (v : c.View) (k' : Kernel) : Type 0 where
    pub via : Kernel
    pub keys : SameKeys k via
    pub held : c.Holds via (waiting k v)
    pub taken : Kernel
    pub pick : cls.pick_next via ≡ some (c.first (waiting k v), taken)
    pub keys_after : SameKeys taken k'
    pub runs : Runs k (choice k (waiting k v)) k'
    pub ready : Ready k' (left_over via (waiting k v))

  pub has-waiting :
      (k : Kernel) (v : c.View) (q : Ptr)
      → has q (c.members (waiting k v)) ≡ ((goes_back k && (q == k.current)) || has q (c.members v))
  has-waiting k v q = ground (arith, c.has-put (cleared k) v k.current q)

  pub has-left_over :
      (j : Kernel) (w : c.View) (q : Ptr)
      → c.Holds j w
      → has q (c.members (left_over j w)) ≡ (if q == c.first w then false else has q (c.members w))
  has-left_over j w q h = ground (arith, c.has-rest j w q h, c.first_null j w q h)

  length-left_over_le :
      (j : Kernel) (w : c.View)
      → c.Holds j w
      → length (c.members (left_over j w)) ≤ length (c.members w)
  length-left_over_le j w h = ground (arith, c.length-rest j w h)

  length-left_over_put :
      (k j : Kernel) (v : c.View) (p : Ptr)
      → c.Holds j (c.put k v p)
      → length (c.members (left_over j (c.put k v p))) ≤ length (c.members v)
  length-left_over_put k j v p h = ground (
    arith,
    c.length-rest j (c.put k v p) h,
    c.length-put k v p,
    c.has-put k v p p,
    c.first_null j (c.put k v p) p h,
  )

  length-left_over :
      (k j : Kernel) (v : c.View)
      → c.Holds j (waiting k v)
      → length (c.members (left_over j (waiting k v))) ≤ length (c.members v)
  length-left_over k j v h = elim (Bool-cases (goes_back k)) [
    | inl e ↦ rw e (length-left_over_put (cleared k) j v k.current (rw e at h))
    | inr e ↦ rw e (length-left_over_le j v (rw e at h))
  ]

  settled :
      (k j k'' : Kernel) (v : c.View) (n : Ptr)
      → Ready k v
      → c.Holds j (waiting k v)
      → n ≡ choice k (waiting k v)
      → Keeps k k''
      → c.Holds k'' (left_over j (waiting k v))
      → (c.first (waiting k v) ≢ null → c.Free k'' n)
      → Ready (switched n k'') (left_over j (waiting k v))
  settled k j k'' v n r h e s h' f = record {
    holds = c.Holds_stable k'' (switched n k'') (left_over j w) (switched-SameQueue k'' n) h';
    few = omega (arith, length-left_over k j v h, r.few);
    idle_out = ground (arith, o.idleproc_same, out, r.idle_out);
    current_out = ground (arith, o.running, has-left_over j w n h, out, r.idle_out);
    current_free = λ ne.
        subst (λ m. c.Free (switched n k'') m) (sym o.running)
          (c.Free_stable k'' (switched n k'') n (switched-SameQueue k'' n)
            (f (ground (arith, o.running, o.idleproc_same))));
  }
    where
      w : c.View
      w = waiting k v

      o : Runs k n (switched n k'')
      o = switched-Runs k k'' n s

      out : has k.idleproc (c.members (left_over j w)) ≡ false
      out = ground (arith, has-left_over j w k.idleproc h, has-waiting k v k.idleproc, r.idle_out)

  -- Over any class that keeps the contract, from a state whose queue is sound and holds neither
  -- the idle nor the running process, schedule does not stop the kernel: it runs the first of the
  -- waiting processes, the running one among them if it can go on, or the idle process if none
  -- waits, no process changes its state, and the queue stays sound.
  pub schedule_law :
      (k : Kernel) (v : c.View) → Ready k v → Ends (schedule cls k) λ k'. Outcome k v k'
  schedule_law k v r =
      let (j, back, p) = put_back_law k v r in
      let ((n, k''), take, q) = take_next_law j (waiting k v) p.2 in
      let e : n ≡ choice k (waiting k v) = ground (arith, q.0, p.0.idleproc_same) in
      let s = Keeps-trans p.0 q.1 in
      (
        switched n k'',
        schedule_runs k j k'' n back take,
        record {
          via = j;
          keys = p.1;
          held = p.2;
          taken = q.4.0;
          pick = q.4.1;
          keys_after = SameKeys-trans q.4.2 (switched-SameKeys k'' n);
          runs = subst (λ m. Runs k m (switched n k'')) e (switched-Runs k k'' n s);
          ready = settled k j k'' v n r p.2 e s q.2 q.3;
        },
      )
