-- ===== src/Process/Hash.antt =====
-- The table of processes by pid: `hash_proc`, `unhash_proc` and `find_proc` of kern/process/proc.c.
use os_lab.Base.{
  Ptr, null, ℕ, zero, suc, ◌+◌, ◌-◌, ◌%◌, ◌^◌, ◌<◌, ◌==◌, ◌≡◌, ◌&&◌, Bool, true, false, List, [],
  ◌∷◌, ◌++◌, has, length, ltb, Option, some, none, if◌then◌else◌, refl, arith, ap, ◌∙◌, ==_ne,
  Bool-cases, inl, inr, length-append, ==_refl,
}
use os_lab.Base.Int.{ℤ, pos, negsuc}
use os_lab.Libs.Hash.{hash32}
use os_lab.Libs.Links.{list_add, list_del, list_next}
use os_lab.Libs.Links.Ring.{Chain, Ring}
use os_lab.Libs.Links.Edit.{list_add-Ring, list_del-Ring}
use os_lab.Sched.State.{Proc}
use os_lab.Process.Table.{Processes}

-- MAX_PROCESS * 2
abbrev pub max_pid : ℕ
max_pid = 8192

-- The conversion to uint32_t.
abbrev as_uint32 : ℤ → ℕ
as_uint32 (pos n) = n % 2 ^ 32
as_uint32 (negsuc n) = (2 ^ 32 - 1 - n % 2 ^ 32) % 2 ^ 32

unfoldable pub pid_hashfn : ℤ → ℕ
unfolding hash32
pid_hashfn x = hash32 (as_uint32 x) 10

-- The head of a bucket.
abbrev pub hash_list : ℕ → Ptr
hash_list i = i + 2

abbrev pub same_int : ℤ → ℤ → Bool
same_int (pos m) (pos n) = m == n
same_int (negsuc m) (negsuc n) = m == n
same_int _ _ = false

abbrev pub in_range : ℤ → Bool
in_range (pos n) = ltb 0 n && ltb n max_pid
in_range (negsuc n) = false

unfoldable pub hash_proc : Ptr → Processes → Processes
hash_proc proc t = record t {
  hash_links = list_add (hash_list (pid_hashfn (t.procs proc).pid)) proc t.hash_links;
}

unfoldable pub unhash_proc : Ptr → Processes → Processes
unhash_proc proc t = record t { hash_links = list_del proc t.hash_links }

-- The loop of `find_proc`; `none` means that the fuel ran out.
unfoldable pub find_from : ℕ → (list le : Ptr) → ℤ → Processes → Option Ptr
find_from Prim.Native.Nat.zero list le pid t = none
find_from (suc f) list le pid t =
    let next = list_next t.hash_links le in
    let later = find_from f list next pid t in
    if next == list then some null else if same_int (t.procs next).pid pid then some next else later

unfoldable pub find_proc : (fuel : ℕ) → ℤ → Processes → Option Ptr
unfolding find_from
find_proc fuel pid t =
    let list = hash_list (pid_hashfn pid) in
    if in_range pid then find_from fuel list list pid t else some null

-- What `find_proc` promises: the first process of the bucket with the pid, or NULL.
abbrev pub first_with : (Ptr → Proc) → ℤ → List Ptr → Ptr
first_with procs pid [] = null
first_with procs pid (x ∷ xs) = if same_int (procs x).pid pid then x else first_with procs pid xs

find_from-Chain :
    (f : ℕ) (h a : Ptr) (xs : List Ptr) (pid : ℤ) (t : Processes)
    → Chain t.hash_links a xs h
    → has h xs ≡ false
    → length xs < f
    → find_from f h a pid t ≡ some (first_with t.procs pid xs)
unfolding find_from list_next
find_from-Chain Prim.Native.Nat.zero h a xs pid t c o lt = absurd (omega arith)
find_from-Chain (suc f) h a [] pid t c o lt = rw (c.0, ==_refl h)
find_from-Chain (suc f) h a (x ∷ xs) pid t c o lt =
    let rest = find_from-Chain f h x xs pid t c.2 (ground arith) (omega arith) in
    rw (c.0, ==_ne x h (ground arith), rest) (ground arith)

-- With fuel above the length of the pid's bucket, find_proc returns the first process of the
-- bucket that has the pid, or NULL if there is none; and NULL for a pid out of range.
pub find_proc-first_with :
    (fuel : ℕ) (pid : ℤ) (t : Processes) (xs : List Ptr)
    → Ring t.hash_links (hash_list (pid_hashfn pid)) xs
    → length xs < fuel
    → find_proc fuel pid t ≡ some (if in_range pid then first_with t.procs pid xs else null)
unfolding find_proc
find_proc-first_with fuel pid t xs r lt = elim (Bool-cases (in_range pid)) [
  | inl e ↦ rw e (
      find_from-Chain fuel (hash_list (pid_hashfn pid)) (hash_list (pid_hashfn pid)) xs pid t
        r.chain r.distinct.0 lt)
  | inr e ↦ rw e
]

same_int_refl : (i : ℤ) → same_int i i ≡ true
same_int_refl (pos n) = ==_refl n
same_int_refl (negsuc n) = ==_refl n

-- A process that hash_proc has just put in the bucket of its pid, the pid being in range, is found
-- by find_proc, with fuel above the length of the bucket.
pub find_proc-hash_proc :
    (fuel : ℕ) (e : Ptr) (t : Processes) (xs : List Ptr)
    → Ring t.hash_links (hash_list (pid_hashfn (t.procs e).pid)) xs
    → has e (hash_list (pid_hashfn (t.procs e).pid) ∷ xs) ≡ false
    → in_range (t.procs e).pid ≡ true
    → length xs + 1 < fuel
    → find_proc fuel (t.procs e).pid (hash_proc e t) ≡ some e
unfolding hash_proc
find_proc-hash_proc fuel e t xs r out ok lt =
    find_proc-first_with fuel (t.procs e).pid (hash_proc e t) (e ∷ xs) (list_add-Ring xs e r out)
      (omega arith)
    ∙ rw (ok, same_int_refl (t.procs e).pid)

first_with-none :
    (procs : Ptr → Proc) (pid : ℤ) (xs : List Ptr)
    → ((q : Ptr) → has q xs ≡ true → same_int (procs q).pid pid ≡ false)
    → first_with procs pid xs ≡ null
first_with-none procs pid [] none_has = refl
first_with-none procs pid (x ∷ xs) none_has =
    rw (none_has x (ground arith)) (first_with-none procs pid xs (λ q i. none_has q (ground arith)))

-- A process that unhash_proc has taken out of its bucket, and whose pid no other process of the
-- bucket has, is not found by find_proc any more, with fuel above the length of what is left of
-- the bucket.
pub find_proc-unhash_proc :
    (fuel : ℕ) (xs : List Ptr) (e : Ptr) (ys : List Ptr) (t : Processes)
    → Ring t.hash_links (hash_list (pid_hashfn (t.procs e).pid)) (xs ++ e ∷ ys)
    → ((q : Ptr) → has q (xs ++ ys) ≡ true → same_int (t.procs q).pid (t.procs e).pid ≡ false)
    → length xs + length ys < fuel
    → find_proc fuel (t.procs e).pid (unhash_proc e t) ≡ some null
unfolding unhash_proc
find_proc-unhash_proc fuel xs e ys t r unique lt =
    find_proc-first_with fuel (t.procs e).pid (unhash_proc e t) (xs ++ ys) (list_del-Ring xs e ys r)
      (omega (arith, length-append xs ys))
    ∙ ap some (all_null (in_range (t.procs e).pid))
  where
    all_null :
        (b : Bool) → (if b then first_with t.procs (t.procs e).pid (xs ++ ys) else null) ≡ null
    all_null true = first_with-none t.procs (t.procs e).pid (xs ++ ys) unique
    all_null false = refl

-- Every pid, negative ones included, has a bucket among the 1024 of hash_list.
pub pid_hashfn_lt : (x : ℤ) → pid_hashfn x < 1024
unfolding pid_hashfn
pid_hashfn_lt x = omega arith
