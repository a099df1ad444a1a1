-- ===== src/Mm/Areas/Copy.antt =====
-- `copy_to_user` and `copy_from_user` of kern/mm/vmm.c: what they write, and where.
use os_lab.Base.{
  ltb, ◌&&◌, refl, leb, inr, arith, inl, Bool-cases, ◌%◌, ◌∙◌, ◌⊎◌, ◌↔◌, ap, false, ◌^◌, ◌≡◌, not,
  Ends, if◌then◌else◌, ◌≤◌, some, true, ◌+◌, ◌<◌, Bool, ◌≢◌, Option, List, ℕ, Ptr, null, ◌>>=◌,
}
use os_lab.Libs.Strings.Defs.{Memory, memcpy}
use os_lab.Libs.Strings.Move.{copied, memmove_lem, memcpy-memmove}
use os_lab.Mm.Areas.Defs.{Spaces, user_access, user_mem_check}
use os_lab.Mm.Areas.Sorted.{IsSpace}
use os_lab.Mm.Areas.Check.{allowed, Allowed, user_mem_check_lem}

unfoldable pub copy_from_user :
    (mm dst src len : ℕ) (writable : Bool) → Spaces → Memory → Option (Bool × Spaces × Memory)
copy_from_user mm dst src len writable s mem = do
  (ok, s') ← user_mem_check mm src len writable s
  some (if not ok then (false, s', mem) else (true, s', memcpy dst src len mem))

unfoldable pub copy_to_user :
    (mm dst src len : ℕ) → Spaces → Memory → Option (Bool × Spaces × Memory)
copy_to_user mm dst src len s mem = do
  (ok, s') ← user_mem_check mm dst len true s
  some (if not ok then (false, s', mem) else (true, s', memcpy dst src len mem))

memcpy_lem :
    (dst src n : ℕ) (mem : Memory)
    → (src < dst → src + n ≤ dst)
    → (q : Ptr) → memcpy dst src n mem q ≡ copied dst src n mem q
memcpy_lem dst src n mem apart q =
    ap (λ m. m q) (memcpy-memmove dst src n mem apart) ∙ memmove_lem dst src n mem q

-- In a sound space, which is not NULL, with a target that does not begin inside the source,
-- copy_from_user copies the bytes exactly if it answers true, which it does exactly if the process
-- may access each of them, and otherwise leaves the memory as it is.
pub copy_from_user_lem :
    (mm : Ptr) (xs : List Ptr) (dst src len : ℕ) (writable : Bool) (s : Spaces) (mem : Memory)
    → mm ≢ null
    → IsSpace s mm xs
    → (src < dst → src + len ≤ dst)
    → Ends (copy_from_user mm dst src len writable s mem) λ (ok, s', mem').
      IsSpace s' mm xs
      × ((q : Ptr) → mem' q ≡ (if ok then copied dst src len mem q else mem q))
      × ((ok ≡ true) ↔ (
          (user_access src ((src + len) % 2 ^ 64) ≡ true)
          × Allowed s.vmas xs writable src ((src + len) % 2 ^ 64)))
unfolding copy_from_user
copy_from_user_lem mm xs dst src len writable s mem ne is apart =
    let ((ok, s'), run, (is', same, d)) = user_mem_check_lem mm xs writable src len s ne is in
    elim (Bool-cases ok) [
      | inl e ↦
          rw (run, e)
            (
              (true, s', memcpy dst src len mem),
              refl,
              (is', memcpy_lem dst src len mem apart, rw e at d),
            )
      | inr e ↦ rw (run, e) ((false, s', mem), refl, (is', λ q. refl, rw e at d))
    ]

-- In a sound space, which is not NULL, for fewer than 2 ^ 64 bytes and a target that does not
-- begin inside the source, copy_to_user ends and leaves the space sound, it copies the bytes if it
-- answers true and none if not, and every byte that it changes is in an area that the process may
-- write to.
pub copy_to_user_safe :
    (mm : Ptr) (xs : List Ptr) (dst src len : ℕ) (s : Spaces) (mem : Memory)
    → mm ≢ null
    → IsSpace s mm xs
    → (src < dst → src + len ≤ dst)
    → len < 2 ^ 64
    → Ends (copy_to_user mm dst src len s mem) λ (ok, s', mem').
      IsSpace s' mm xs
      × ((q : Ptr) → mem' q ≡ (if ok then copied dst src len mem q else mem q))
      × ((q : Ptr) → (mem' q ≡ mem q) ⊎ (allowed s.vmas xs true q ≡ true))
unfolding copy_to_user
copy_to_user_safe mm xs dst src len s mem ne is apart lt =
    let ((ok, s'), run, (is', same, d)) = user_mem_check_lem mm xs true dst len s ne is in
    elim (Bool-cases ok) [
      | inl e ↦
          let (access, may) = d.0 e in
          let fits : (dst + len) % 2 ^ 64 ≡ dst + len = ground arith in
          rw (run, e)
            (
              (true, s', memcpy dst src len mem),
              refl,
              (
                is',
                memcpy_lem dst src len mem apart,
                λ q. elim (Bool-cases (leb dst q && ltb q (dst + len))) [
                  | inl i ↦ inr (may q (ground arith) (ground (arith, fits)))
                  | inr o ↦ inl (memcpy_lem dst src len mem apart q ∙ rw o refl)
                ],
              ),
            )
      | inr e ↦ rw (run, e) ((false, s', mem), refl, (is', λ q. refl, λ q. inl refl))
    ]
