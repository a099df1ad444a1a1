-- ===== src/Mm/Tables/Defs.antt =====
-- The operations of kern/mm/pmm.c on page tables of three levels. A page and its descriptor go by the
-- number of the page, so page2ppn and pte2page are arithmetic; memory is read word by word, as the
-- entries of a page. The calls that pmm.c makes through `pmm_manager` are fields of a record. `none`
-- is a panic.
use os_lab.Base.{
  Ptr, null, ℕ, ◌+◌, ◌-◌, ◌*◌, ◌/◌, ◌%◌, ◌^◌, ◌==◌, Bool, true, false, not, ◌&&◌, ltb,
  if◌then◌else◌, update, Option, some, assert, ◌>>=◌, ◌>>◌,
}
use os_lab.Base.Int.{ℤ, pos}
use os_lab.Mm.FirstFit.Defs.{FreeArea}
use os_lab.Mm.Areas.Defs.{e_no_mem}

-- The two operations of struct pmm_manager that the tables use.
pub record PmmManager : Type 0 where
  pub alloc_pages : ℕ → FreeArea → Option (Ptr × FreeArea)
  pub free_pages : Ptr → ℕ → FreeArea → Option FreeArea

-- npage bounds the numbers of the pages that there are.
pub record Memory : Type 0 where
  pub area : FreeArea
  pub words : Ptr → ℕ → ℕ
  pub npage : ℕ

-- A pointer to an entry of a table; on the page NULL it is NULL.
pub record Slot : Type 0 where
  pub page : Ptr
  pub index : ℕ

abbrev pub null_slot : Slot
null_slot = record { page = null; index = 0 }

abbrev pub word_at : (Ptr → ℕ → ℕ) → Slot → ℕ
word_at words e = words e.page e.index

abbrev pub set_word : (Ptr → ℕ → ℕ) → Slot → ℕ → Ptr → ℕ → ℕ
set_word words e v p i = if (p == e.page) && (i == e.index) then v else words p i

-- PDX1, PDX0 and PTX.
abbrev pub pdx1 : ℕ → ℕ
pdx1 la = la / 2 ^ 30 % 512

abbrev pub pdx0 : ℕ → ℕ
pdx0 la = la / 2 ^ 21 % 512

abbrev pub ptx : ℕ → ℕ
ptx la = la / 2 ^ 12 % 512

-- pte & PTE_V, and the number of the page that an entry leads to.
abbrev pub is_valid : ℕ → Bool
is_valid pte = pte % 2 == 1

abbrev pub pte2page : ℕ → Ptr
pte2page pte = pte / 2 ^ 10 % 2 ^ 52

-- PTE_V | type
abbrev pub with_valid : ℕ → ℕ
with_valid type = type - type % 2 + 1

-- For a type below 2 ^ 10, as all of the kernel's are.
abbrev pub pte_create : (ppn type : ℕ) → ℕ
pte_create ppn type = ppn * 2 ^ 10 % 2 ^ 64 + with_valid type

abbrev pub set_page_ref : Ptr → ℕ → Memory → Memory
set_page_ref page val m = record m {
  area = record m.area {
    pages = update m.area.pages page (record (m.area.pages page) { ref = val });
  };
}

abbrev pub page_ref : Ptr → Memory → ℕ
page_ref page m = (m.area.pages page).ref

abbrev pub page_ref_inc : Ptr → Memory → Memory
page_ref_inc page m = set_page_ref page ((page_ref page m + 1) % 2 ^ 32) m

abbrev pub page_ref_dec : Ptr → Memory → Memory
page_ref_dec page m = set_page_ref page ((page_ref page m + 2 ^ 32 - 1) % 2 ^ 32) m

-- memset(KADDR(page2pa(page)), 0, PGSIZE)
abbrev pub clear_page : Ptr → (Ptr → ℕ → ℕ) → Ptr → ℕ → ℕ
clear_page page words p i = if p == page then 0 else words p i

module _ (pmm : PmmManager) where
  unfoldable pub alloc_page : Memory → Option (Ptr × Memory)
  alloc_page m = do (page, area) ← pmm.alloc_pages 1 m.area; some (page, record m { area = area })

  unfoldable pub free_page : Ptr → Memory → Option Memory
  free_page page m = do area ← pmm.free_pages page 1 m.area; some (record m { area = area })

  -- A new table for the entry, with no entries itself; false if there is no page for it.
  unfoldable pub grow : Slot → Memory → Option (Bool × Memory)
  unfolding alloc_page
  grow pdep m = do
    (page, m1) ← alloc_page m
    let m2 = set_page_ref page 1 m1
    if page == null then some (false, m1) else do
      assert (ltb page m.npage)
      some (
        true,
        record m2 { words = set_word (clear_page page m2.words) pdep (pte_create page 17) },
      )

  -- What `get_pte` does at each of the two upper levels; the Boolean says whether there is a table.
  unfoldable pub enter : Slot → Bool → Memory → Option (Bool × Memory)
  enter pdep create m =
      if is_valid (word_at m.words pdep)
      then some (true, m)
      else if create
      then grow pdep m
      else some (false, m)

  -- What `get_pte` does after the lower of the two, for its entry and what `enter` answers there.
  abbrev pub from_low : Slot → ℕ → Bool → Memory → Option (Slot × Memory)
  from_low pdep0 la ok m =
      let pt = pte2page (word_at m.words pdep0) in
      if not ok
      then some (null_slot, m)
      else do assert (ltb pt m.npage); some (record { page = pt; index = ptx la }, m)

  -- And after the upper one.
  abbrev pub from_mid : (pgdir la : ℕ) → Bool → Bool → Memory → Option (Slot × Memory)
  from_mid pgdir la create ok m =
      let pd0 = pte2page (word_at m.words (record { page = pgdir; index = pdx1 la })) in
      let pdep0 : Slot = record { page = pd0; index = pdx0 la } in
      if not ok
      then some (null_slot, m)
      else do assert (ltb pd0 m.npage); (ok', m') ← enter pdep0 create m; from_low pdep0 la ok' m'

  unfoldable pub get_pte : (pgdir la : ℕ) → Bool → Memory → Option (Slot × Memory)
  get_pte pgdir la create m = do
    (ok, m') ← enter (record { page = pgdir; index = pdx1 la }) create m
    from_mid pgdir la create ok m'

  -- The page, and the entry, which the caller gets if ptep_store is not NULL.
  unfoldable pub get_page : (pgdir la : ℕ) → Memory → Option (Ptr × Slot × Memory)
  unfolding get_pte
  get_page pgdir la m = do
    (ptep, m') ← get_pte pgdir la false m
    let pte = word_at m'.words ptep
    if not (ptep.page == null) && is_valid pte
        then assert (ltb (pte2page pte) m.npage) >> some (pte2page pte, ptep, m')
        else some (null, ptep, m')

  unfoldable pub page_remove_pte : Slot → Memory → Option Memory
  unfolding free_page
  page_remove_pte ptep m =
      let page = pte2page (word_at m.words ptep) in
      let m1 = page_ref_dec page m in
      if not (is_valid (word_at m.words ptep)) then some m else do
        assert (ltb page m.npage)
        m2 ← if page_ref page m1 == 0 then free_page page m1 else some m1
        some (record m2 { words = set_word m2.words ptep 0 })

  unfoldable pub page_remove : (pgdir la : ℕ) → Memory → Option Memory
  unfolding get_pte page_remove_pte
  page_remove pgdir la m = do
    (ptep, m') ← get_pte pgdir la false m
    if ptep.page == null then some m' else page_remove_pte ptep m'

  -- What `page_insert` does about the page that the entry had before.
  abbrev pub let_go : Slot → Ptr → Memory → Option Memory
  let_go ptep page m =
      let old = word_at m.words ptep in
      if not (is_valid old)
      then some m
      else if pte2page old == page
      then assert (ltb (pte2page old) m.npage) >> some (page_ref_dec page m)
      else page_remove_pte ptep m

  unfoldable pub page_insert : (pgdir page la perm : ℕ) → Memory → Option (ℤ × Memory)
  page_insert pgdir page la perm m = do
    (ptep, m1) ← get_pte pgdir la true m
    if ptep.page == null then some (e_no_mem, m1) else do
      m2 ← let_go ptep page (page_ref_inc page m1)
      some (pos 0, record m2 { words = set_word m2.words ptep (pte_create page (with_valid perm)) })
