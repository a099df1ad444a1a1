-- ===== src/Mm/Tables/PgdirAlloc.antt =====
-- `pgdir_alloc_page`: a new page for an address.
use os_lab.Base.{Ptr, null, ℕ, ◌<◌, ◌≡◌, ◌≢◌, Bool, true, false, if◌then◌else◌, update}
use os_lab.Mm.FirstFit.Defs.{FreeArea}
use os_lab.Mm.Tables.Defs.{PmmManager, Memory, is_valid, pte_create, with_valid, pdx1, page_ref}
use os_lab.Mm.Tables.Tree.{leaf, no_place}
use os_lab.Mm.Tables.Manager.{Given, Gives, Takes, AreApart}
use os_lab.Mm.Tables.Enter.{IsMemory}
use os_lab.Mm.Tables.GetPte.{pte_of}
use os_lab.Mm.Tables.Leaf.{hits}

-- A page that was free is mapped at the address, and nothing else changes; or nothing does.
pub data Mapped (Sound : FreeArea → (Ptr → Bool) → Type 0) (m : Memory) (r : Ptr)
    (free : Ptr → Bool) (la perm : ℕ) (page : Ptr) (m' : Memory) : Type 0 where
  no_page :
      (place' : Ptr → ℕ) (free' : Ptr → Bool)
      → page ≡ null
      → IsMemory Sound m' r place' free'
      → ((i j k : ℕ) → i < 511 → j < 512 → k < 512 → leaf m'.words r i j k ≡ leaf m.words r i j k)
      → Mapped Sound m r free la perm page m'
  new_page :
      (place' : Ptr → ℕ) (free' : Ptr → Bool)
      → page ≢ null
      → free page ≡ true
      → page_ref page m' ≡ 1
      → IsMemory Sound m' r place' free'
      → ((i j k : ℕ)
          → i < 511
          → j < 512
          → k < 512
          → leaf m'.words r i j k
            ≡ (if hits la i j k then pte_create page (with_valid perm) else leaf m.words r i j k))
      → Mapped Sound m r free la perm page m'

module _ (pmm : PmmManager) (Sound : FreeArea → (Ptr → Bool) → Type 0) (g : Gives pmm Sound)
    {kernel : Ptr → Bool} (t : Takes pmm Sound kernel) (m : Memory) (r : Ptr) (place : Ptr → ℕ)
    (free : Ptr → Bool) (is : IsMemory Sound m r place free) (la perm : ℕ) (lp : perm < 1024)
    (user : pdx1 la < 511) (ours : AreApart kernel place)
    (unmapped : is_valid (pte_of m.words r la) ≡ false) where
  module _ (page : Ptr) (area : FreeArea) (given : Given Sound m.area free page area)
      (unused : page_ref page m ≡ 0) where
    abbrev m1 : Memory
    m1 = record m { area = area }

    abbrev place1 : Ptr → ℕ
    place1 = update place page no_place
