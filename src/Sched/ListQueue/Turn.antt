-- ===== src/Sched/ListQueue/Turn.antt =====
-- A turn of round robin and of FIFO, as exactly as the queue tells it, and how long a process waits.
use os_lab.Base.{
  append_assoc, Ptr, null, ℕ, zero, suc, ◌≡◌, Option, some, ◌>>=◌, List, [], ◌∷◌, ◌++◌, length,
  head_or, Ends, refl, ==_ne, subst, ap, Bool-cases, inl, inr, arith, ◌∙◌, if◌then◌else◌,
}
use os_lab.Sched.State.{Kernel}
use os_lab.Sched.Class.{SchedClass}
use os_lab.Sched.Framework.{schedule}
use os_lab.Sched.Contract.Switch.{goes_back, Runs}
use os_lab.Sched.Contract.Schedule.{Ready, left_over, choice, schedule_law}
use os_lab.Sched.ListQueue.Defs.{tail, IsQueue}
use os_lab.Sched.ListQueue.Contract.{IsListClass, list_contract}

-- The processes that can run, in the order of their turns.
abbrev pub line : Kernel → List Ptr → List Ptr
line k xs = if goes_back k then xs ++ k.current ∷ [] else xs

-- `schedule`, n times, where no process changes its state in between.
unfoldable pub turns : SchedClass → ℕ → Kernel → Option Kernel
turns cls zero k = some k
turns cls (suc n) k = schedule cls k >>= turns cls n

module _ {cls : SchedClass} (l : IsListClass cls) where
  choice_line :
      (k : Kernel) (ys : List Ptr) {j : Kernel}
      → IsQueue j ys
      → choice (list_contract l) k ys ≡ head_or k.idleproc ys
  choice_line k [] is = refl
  choice_line k (y ∷ ys) is = ground (arith, is.no_null)

  left_over_line :
      (j : Kernel) (ys : List Ptr) → IsQueue j ys → left_over (list_contract l) j ys ≡ tail ys
  left_over_line j [] is = refl
  left_over_line j (y ∷ ys) is = rw (==_ne y null (ground (arith, is.no_null)))

  -- Under a list-based class `schedule` always succeeds, runs the first of the line, or the idle
  -- process if the line is empty, and leaves the others in the queue in their order.
  pub list_schedule :
      (k : Kernel) (xs : List Ptr)
      → Ready (list_contract l) k xs
      → Ends (schedule cls k) λ k'.
        Runs k (head_or k.idleproc (line k xs)) k' × Ready (list_contract l) k' (tail (line k xs))
  list_schedule k xs r =
      let (k', run, out) = schedule_law (list_contract l) k xs r in
      (
        k',
        run,
        (
          subst (λ n. Runs k n k') (choice_line k (line k xs) out.held) out.runs,
          subst (λ ys. Ready (list_contract l) k' ys) (left_over_line out.via (line k xs) out.held)
              out.ready,
        ),
      )

  later :
      (k : Kernel) (xs : List Ptr) (p : Ptr) (back : List Ptr)
      → (more : List Ptr) × (line k (xs ++ p ∷ back) ≡ xs ++ p ∷ more)
  later k xs p back = elim (Bool-cases (goes_back k)) [
    | inl e ↦ (back ++ k.current ∷ [], rw e (append_assoc xs (p ∷ back) (k.current ∷ [])))
    | inr e ↦ (back, rw e refl)
  ]

  -- Under a list-based class a process with n others before it in the line runs after exactly
  -- n + 1 turns, whatever the others are, and none of those turns fails.
  pub waits_at_most :
      (front : List Ptr) (p : Ptr) (back : List Ptr) (k : Kernel) (xs : List Ptr)
      → Ready (list_contract l) k xs
      → line k xs ≡ front ++ p ∷ back
      → Ends
          (turns cls (suc (length front)) k)
          λ k'. (k'.current ≡ p) × ((ys : List Ptr) × Ready (list_contract l) k' ys)
  unfolding turns
  waits_at_most [] p back k xs r e =
      let (k', run, out) = list_schedule k xs r in
      (k', rw run refl, (out.0.running ∙ ap (head_or k.idleproc) e, (tail (line k xs), out.1)))
  waits_at_most (x ∷ front) p back k xs r e =
      let (k', run, out) = list_schedule k xs r in
      let (more, e') = later k' front p back in
      let ready = subst (λ ys. Ready (list_contract l) k' ys) (ap tail e) out.1 in
      let (k'', run', out') = waits_at_most front p more k' (front ++ p ∷ back) ready e' in
      (k'', rw run run', out')
