-- ===== src/Mm/Tables/ExitMmap.antt =====
-- The first loop of `exit_mmap`: every area of the space is unmapped.
use os_lab.Base.{
  Ptr, ℕ, suc, ◌+◌, ◌%◌, ◌<◌, ◌≡◌, ==_ne, ==_refl, Bool, true, false, ◌&&◌, ◌||◌, Bool-cases, inl,
  inr, if◌then◌else◌, refl, arith, ap, ◌-◌, ◌∙◌, Ends, List, [], ◌∷◌, has, length,
}
use os_lab.Libs.Links.{list_next}
use os_lab.Libs.Links.Ring.{Chain}
use os_lab.Mm.FirstFit.Defs.{FreeArea}
use os_lab.Mm.Areas.Defs.{Vma, Spaces, user_access, contains}
use os_lab.Mm.Areas.Sorted.{IsSpace}
use os_lab.Mm.Tables.Defs.{PmmManager, Memory, is_valid}
use os_lab.Mm.Tables.Tree.{leaf}
use os_lab.Mm.Tables.Manager.{Gives, Takes, AreApart}
use os_lab.Mm.Tables.Enter.{IsMemory}
use os_lab.Mm.Tables.Ranges.{unmap_range, each_area}
use os_lab.Mm.Tables.Cover.{address}
use os_lab.Mm.Tables.Unmap.{unmap_range_lem}

-- Areas of whole pages, in the user's part.
abbrev pub AreUser : (Ptr → Vma) → List Ptr → Type 0
AreUser vmas [] = Unit {0}
AreUser vmas (x ∷ xs) =
    ((vmas x).vm_start % 4096 ≡ 0)
    × ((vmas x).vm_end % 4096 ≡ 0)
    × (user_access (vmas x).vm_start (vmas x).vm_end ≡ true)
    × AreUser vmas xs

-- Whether an area holds the address.
abbrev pub in_areas : (Ptr → Vma) → List Ptr → ℕ → Bool
in_areas vmas [] a = false
in_areas vmas (x ∷ xs) a = contains (vmas x) a || in_areas vmas xs a

first_or_later :
    (later first : Bool) (l : ℕ)
    → (if later && is_valid (if first && is_valid l then 0 else l)
        then 0
        else (if first && is_valid l then 0 else l))
      ≡ (if (first || later) && is_valid l then 0 else l)
first_or_later true true l = elim (Bool-cases (is_valid l)) [
  | inl v ↦ rw v refl
  | inr v ↦ rw (v, v) refl
]
first_or_later true false l = refl
first_or_later false true l = refl
first_or_later false false l = refl

pub record AreasGone (Sound : FreeArea → (Ptr → Bool) → Type 0) (m : Memory) (r : Ptr)
    (place : Ptr → ℕ) (vmas : Ptr → Vma) (xs : List Ptr) (m' : Memory) : Type 0 where
  pub free' : Ptr → Bool
  pub memory : IsMemory Sound m' r place free'
  pub leaves :
      (i j k : ℕ)
      → i < 511
      → j < 512
      → k < 512
      → leaf m'.words r i j k ≡ (
          if in_areas vmas xs (address i j k) && is_valid (leaf m.words r i j k)
          then 0
          else leaf m.words r i j k)

module _ (pmm : PmmManager) (Sound : FreeArea → (Ptr → Bool) → Type 0) (g : Gives pmm Sound)
    {kernel : Ptr → Bool} (t : Takes pmm Sound kernel) (s : Spaces) (r : Ptr) (place : Ptr → ℕ)
    (list : Ptr) (ours : AreApart kernel place) where
  each_area-unmap_range :
      (f : ℕ) (a : Ptr) (xs : List Ptr) (m : Memory) (free : Ptr → Bool)
      → IsMemory Sound m r place free
      → free (m.npage - 1) ≡ true
      → Chain s.mmap_links a xs list
      → has list xs ≡ false
      → length xs < f
      → AreUser s.vmas xs
      → Ends
          (each_area pmm f (unmap_range pmm r) list a s m)
          λ m'. AreasGone Sound m r place s.vmas xs m'
  unfolding each_area list_next
  each_area-unmap_range Prim.Native.Nat.zero a xs m free is top c out lt user = absurd (omega arith)
  each_area-unmap_range (suc f) a [] m free is top c out lt user =
      rw (c.0, ==_refl list)
        (m, refl, record { free' = free; memory = is; leaves = λ i j k li lj lk. refl })
  each_area-unmap_range (suc f) a (x ∷ xs) m free is top c out lt user =
      let (m1, run, one) =
        unmap_range_lem pmm Sound g t m r place free (s.vmas x).vm_start (s.vmas x).vm_end is ours
          top user.0 user.1 user.2 in
      let (m2, run2, rest) =
        each_area-unmap_range f x xs m1 one.free' one.memory
          (one.still_free (m1.npage - 1) (ap (λ (n : ℕ). free (n - 1)) one.same_npage ∙ top)) c.2
          (ground arith) (omega arith) user.3 in
      rw (c.0, ==_ne x list (ground arith), run, run2)
        (
          m2,
          refl,
          record {
            free' = rest.free';
            memory = rest.memory;
            leaves = λ i j k li lj lk.
                rest.leaves i j k li lj lk
                ∙ rw (one.leaves i j k li lj lk) (
                    first_or_later (in_areas s.vmas xs (address i j k))
                      (contains (s.vmas x) (address i j k)) (leaf m.words r i j k));
          },
        )

  -- Over a manager that hands out pages and takes them back as the contract says, from a memory
  -- whose page tables below the last gigabyte are a tree of pages in use, none of them the
  -- kernel's for good, where the last page of memory is free, for a sound space whose areas are
  -- ranges of whole pages in the user's addresses, the first loop of exit_mmap ends, the tables
  -- are a tree again, no address in an area is mapped, and every other address below the last
  -- gigabyte is translated as before.
  pub unmap_areas :
      (xs : List Ptr) (m : Memory) (free : Ptr → Bool)
      → IsSpace s list xs
      → IsMemory Sound m r place free
      → free (m.npage - 1) ≡ true
      → AreUser s.vmas xs
      → Ends
          (each_area pmm ((s.mms list).map_count + 1) (unmap_range pmm r) list list s m)
          λ m'. AreasGone Sound m r place s.vmas xs m'
  unmap_areas xs m free space is top user =
      each_area-unmap_range ((s.mms list).map_count + 1) list xs m free is top space.ring.chain
        space.ring.distinct.0 (omega (arith, space.counted)) user
