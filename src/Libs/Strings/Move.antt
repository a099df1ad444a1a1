-- ===== src/Libs/Strings/Move.antt =====
-- `memset`, `memmove`, `memcpy` and `memcmp`, byte by byte.
use os_lab.Base.{
  ◌∷◌, [], List, ap, Ptr, ℕ, suc, ◌+◌, ◌-◌, ◌<◌, ◌≤◌, ◌≡◌, Bool-cases, inl, inr, false, ◌&&◌, ltb,
  leb, if◌then◌else◌, update, arith, refl, ◌∙◌,
}
use os_lab.Base.Int.{pos}
use os_lab.Libs.Strings.Defs.{
  Memory, difference, memset, copy_forward, copy_backward, memmove, memcpy, memcmp,
}

-- The byte at `q` once n bytes have been copied at once.
abbrev pub copied : (dst src n : ℕ) → Memory → Ptr → ℕ
copied dst src n mem q = if leb dst q && ltb q (dst + n) then mem (src + (q - dst)) else mem q

memset_lem :
    (s c n : ℕ) (mem : Memory) (q : Ptr)
    → memset s c n mem q ≡ (if leb s q && ltb q (s + n) then c else mem q)
unfolding memset
memset_lem s c Prim.Native.Nat.zero mem q = ground arith
memset_lem s c (suc n) mem q = ground (arith, memset_lem (suc s) c n (update mem s c) q)

next_index : (mem : Memory) (s d q : ℕ) → d < q → mem (suc s + (q - suc d)) ≡ mem (s + (q - d))
next_index mem s d q lt = ap mem (omega arith)

first_index : (mem : Memory) (s d q : ℕ) → q ≡ d → mem (s + (q - d)) ≡ mem s
first_index mem s d q e = ap mem (omega arith)

last_index : (mem : Memory) (s d n q : ℕ) → q ≡ d + n → mem (s + (q - d)) ≡ mem (s + n)
last_index mem s d n q e = ap mem (omega arith)

-- The bytes that are still to be read are not those that have been written.
forward_lem :
    (d s n : ℕ) (mem : Memory) (q : Ptr)
    → (ltb s d && ltb d (s + n)) ≡ false
    → copy_forward d s n mem q ≡ copied d s n mem q
unfolding copy_forward
forward_lem d s Prim.Native.Nat.zero mem q e = ground arith
forward_lem d s (suc n) mem q e =
    forward_lem (suc d) (suc s) n (update mem d (mem s)) q (ground arith)
    ∙ ground (arith, next_index mem s d q, first_index mem s d q)

backward_lem :
    (d s n : ℕ) (mem : Memory) (q : Ptr)
    → s < d
    → copy_backward (d + n) (s + n) n mem q ≡ copied d s n mem q
unfolding copy_backward
backward_lem d s Prim.Native.Nat.zero mem q lt = ground arith
backward_lem d s (suc n) mem q lt =
    let e : d + suc n - 1 ≡ d + n = omega arith in
    let e' : s + suc n - 1 ≡ s + n = omega arith in
    rw (e, e')
      (backward_lem d s n (update mem (d + n) (mem (s + n))) q lt
        ∙ ground (arith, last_index mem s d n q))

-- memmove leaves the memory that a copy of all n bytes at once would leave, also where source and
-- target overlap.
pub memmove_lem :
    (dst src n : ℕ) (mem : Memory) (q : Ptr) → memmove dst src n mem q ≡ copied dst src n mem q
unfolding memmove
memmove_lem dst src n mem q = elim (Bool-cases (ltb src dst && ltb dst (src + n))) [
  | inl e ↦ rw e (backward_lem dst src n mem q (ground arith))
  | inr e ↦ rw e (forward_lem dst src n mem q e)
]

-- memcpy agrees with memmove where the destination does not begin inside the source.
pub memcpy-memmove :
    (dst src n : ℕ) (mem : Memory)
    → (src < dst → src + n ≤ dst)
    → memcpy dst src n mem ≡ memmove dst src n mem
unfolding memcpy memmove
memcpy-memmove dst src n mem h =
    let e : (ltb src dst && ltb dst (src + n)) ≡ false = ground (arith, h) in rw e

difference_zero : (a b : ℕ) → difference a b ≡ pos 0 → a ≡ b
difference_zero a b e = ground arith

-- The n bytes from `v` on.
abbrev pub bytes : Memory → Ptr → ℕ → List ℕ
bytes mem v Prim.Native.Nat.zero = []
bytes mem v (suc n) = mem v ∷ bytes mem (suc v) n

-- memcmp answers 0 exactly if the n bytes are the same.
pub memcmp_lem :
    (v1 v2 n : ℕ) (mem : Memory)
    → (memcmp v1 v2 n mem ≡ pos 0 → bytes mem v1 n ≡ bytes mem v2 n)
      × (bytes mem v1 n ≡ bytes mem v2 n → memcmp v1 v2 n mem ≡ pos 0)
unfolding memcmp
memcmp_lem v1 v2 Prim.Native.Nat.zero mem = ((λ e. refl), λ h. refl)
memcmp_lem v1 v2 (suc n) mem =
    let ih = memcmp_lem (suc v1) (suc v2) n mem in
    let z = difference_zero (mem v1) (mem v2) in (ground (arith, ih, z), ground (arith, ih, z))
