-- ===== src/Mm/Tables/Ranges.antt =====
-- The operations of kern/mm/pmm.c on a range of addresses, and those of kern/mm/vmm.c that apply
-- them to every area of a space. The fuel of a loop is the number of pages, tables or areas in its
-- range. The field pra_vaddr, which nothing reads, is left out.
use os_lab.Base.{
  Ptr, null, ℕ, suc, ◌+◌, ◌-◌, ◌/◌, ◌%◌, ◌^◌, ◌==◌, Bool, true, false, not, ◌&&◌, ltb,
  if◌then◌else◌, Option, none, some, assert, ◌>>=◌, ◌>>◌, List, [], ◌∷◌,
}
use os_lab.Base.Int.{ℤ, pos}
use os_lab.Libs.Links.{list_next, list_prev}
use os_lab.Mm.Areas.Defs.{Spaces, user_access, e_no_mem, vma_create, insert_vma_struct}
use os_lab.Mm.Tables.Defs.{
  PmmManager, Memory, word_at, set_word, pdx1, pdx0, is_valid, pte2page, page_ref, alloc_page,
  free_page, get_pte, page_remove_pte, page_insert,
}

-- ROUNDDOWN(start + PTSIZE, PTSIZE)
abbrev pub next_table : ℕ → ℕ
next_table start = (start + 2 ^ 21) % 2 ^ 64 - (start + 2 ^ 21) % 2 ^ 64 % 2 ^ 21

abbrev pub is_zero : ℤ → Bool
is_zero (pos n) = n == 0
is_zero other = false

-- Whether none of the n entries of the table from i on is valid.
unfoldable pub no_entries : (n i : ℕ) → Ptr → (Ptr → ℕ → ℕ) → Bool
no_entries Prim.Native.Nat.zero i pt words = true
no_entries (suc n) i pt words =
    let rest = no_entries n (suc i) pt words in if is_valid (words pt i) then false else rest

module _ (pmm : PmmManager) where
  -- One round of `unmap_range`: the address that the next one begins at.
  unfoldable pub unmap_page : (pgdir start : ℕ) → Memory → Option (ℕ × Memory)
  unmap_page pgdir start m = do
    (ptep, m') ← get_pte pmm pgdir start false m
    if ptep.page == null then some (next_table start, m') else do
      m2 ← if word_at m'.words ptep == 0 then some m' else page_remove_pte pmm ptep m'
      some ((start + 4096) % 2 ^ 64, m2)

  unfoldable pub unmap_pages : ℕ → (pgdir start finish : ℕ) → Memory → Option Memory
  unmap_pages Prim.Native.Nat.zero pgdir start finish m = none
  unmap_pages (suc f) pgdir start finish m = do
    (next, m') ← unmap_page pgdir start m
    let rest = unmap_pages f pgdir next finish m'
    if not (next == 0) && ltb next finish then rest else some m'

  unfoldable pub unmap_range : (pgdir start finish : ℕ) → Memory → Option Memory
  unmap_range pgdir start finish m = do
    assert ((start % 4096 == 0) && (finish % 4096 == 0))
    assert (user_access start finish)
    unmap_pages ((finish - start) / 4096) pgdir start finish m

  -- The table is given back if it has no valid entry. The Boolean is free_pd0.
  unfoldable pub exit_table : (pd0 d0start : ℕ) → Bool → Memory → Option (Bool × Memory)
  exit_table pd0 d0start free_pd0 m =
      let pde0 = m.words pd0 (pdx0 d0start) in
      if is_valid pde0
      then (do
        assert (ltb (pte2page pde0) m.npage)
        m' ←
            if no_entries 512 0 (pte2page pde0) m.words
            then (do
              m1 ← free_page pmm (pte2page pde0) m
              some (record m1 {
                words = set_word m1.words (record { page = pd0; index = pdx0 d0start }) 0;
              }))
            else some m
        some (free_pd0, m'))
      else some (false, m)

  unfoldable pub exit_tables :
      ℕ → (pd0 d1start d0start finish : ℕ) → Bool → Memory → Option (Bool × Memory)
  exit_tables Prim.Native.Nat.zero pd0 d1start d0start finish free_pd0 m = none
  exit_tables (suc f) pd0 d1start d0start finish free_pd0 m = do
    (free_pd0', m') ← exit_table pd0 d0start free_pd0 m
    let next = (d0start + 2 ^ 21) % 2 ^ 64
    let rest = exit_tables f pd0 d1start next finish free_pd0' m'
    if not (next == 0) && (ltb next ((d1start + 2 ^ 30) % 2 ^ 64) && ltb next finish)
        then rest
        else some (free_pd0', m')

  unfoldable pub exit_dir : (pgdir d1start d0start finish : ℕ) → Memory → Option Memory
  exit_dir pgdir d1start d0start finish m =
      let pde1 = m.words pgdir (pdx1 d1start) in
      if not (is_valid pde1) then some m else do
        assert (ltb (pte2page pde1) m.npage)
        (free_pd0, m1) ← exit_tables 512 (pte2page pde1) d1start d0start finish true m
        if not free_pd0 then some m1 else do
          m2 ← free_page pmm (pte2page pde1) m1
          some (record m2 {
            words = set_word m2.words (record { page = pgdir; index = pdx1 d1start }) 0;
          })

  unfoldable pub exit_dirs : ℕ → (pgdir d1start d0start finish : ℕ) → Memory → Option Memory
  exit_dirs Prim.Native.Nat.zero pgdir d1start d0start finish m = none
  exit_dirs (suc f) pgdir d1start d0start finish m = do
    m' ← exit_dir pgdir d1start d0start finish m
    let next = (d1start + 2 ^ 30) % 2 ^ 64
    let rest = exit_dirs f pgdir next next finish m'
    if not (next == 0) && ltb next finish then rest else some m'

  unfoldable pub exit_range : (pgdir start finish : ℕ) → Memory → Option Memory
  exit_range pgdir start finish m = do
    assert ((start % 4096 == 0) && (finish % 4096 == 0))
    assert (user_access start finish)
    exit_dirs ((finish - (start - start % 2 ^ 30)) / 2 ^ 30 + 1) pgdir (start - start % 2 ^ 30)
        (start - start % 2 ^ 21) finish m

  -- memcpy(page2kva(npage), page2kva(page), PGSIZE)
  abbrev pub copy_content : (npage page : Ptr) → (Ptr → ℕ → ℕ) → Ptr → ℕ → ℕ
  copy_content npage page words p i = if p == npage then words page i else words p i

  -- A page for the other process, with the content of `page`.
  unfoldable pub copy_page : (to start page perm : ℕ) → Memory → Option (ℤ × Memory)
  copy_page to start page perm m = do
    assert (ltb page m.npage)
    (npage, m1) ← alloc_page pmm m
    assert (not (npage == null))
    assert (ltb npage m1.npage)
    let m2 = record m1 { words = copy_content npage page m1.words }
    (ret, m3) ← page_insert pmm to npage start perm m2
    if is_zero ret then some (ret, m3) else do m4 ← free_page pmm npage m3; some (ret, m4)

  -- One round of `copy_range`: what it returns, unless that is 0, and the next address.
  unfoldable pub copy_next : (to src start : ℕ) → Memory → Option (ℤ × ℕ × Memory)
  copy_next to src start m = do
    (ptep, m1) ← get_pte pmm src start false m
    let pte = word_at m1.words ptep
    if ptep.page == null
        then some (pos 0, next_table start, m1)
        else if not (is_valid pte)
        then some (pos 0, (start + 4096) % 2 ^ 64, m1)
        else (do
          (nptep, m2) ← get_pte pmm to start true m1
          let now = word_at m2.words ptep
          if nptep.page == null then some (e_no_mem, start, m2) else do
            (ret, m3) ← copy_page to start (pte2page now) (now % 2 ^ 5) m2
            some (ret, (start + 4096) % 2 ^ 64, m3))

  unfoldable pub copy_pages : ℕ → (to src start finish : ℕ) → Memory → Option (ℤ × Memory)
  copy_pages Prim.Native.Nat.zero to src start finish m = none
  copy_pages (suc f) to src start finish m = do
    (ret, next, m') ← copy_next to src start m
    let rest = copy_pages f to src next finish m'
    if not (is_zero ret)
        then some (ret, m')
        else if not (next == 0) && ltb next finish
        then rest
        else some (pos 0, m')

  unfoldable pub copy_range : (to src start finish : ℕ) → Memory → Option (ℤ × Memory)
  copy_range to src start finish m = do
    assert ((start % 4096 == 0) && (finish % 4096 == 0))
    assert (user_access start finish)
    copy_pages ((finish - start) / 4096) to src start finish m

  -- The page, or NULL.
  unfoldable pub pgdir_alloc_page : (pgdir la perm : ℕ) → Memory → Option (Ptr × Memory)
  pgdir_alloc_page pgdir la perm m = do
    (page, m1) ← alloc_page pmm m
    if page == null then some (null, m1) else do
      (ret, m2) ← page_insert pmm pgdir page la perm m1
      if not (is_zero ret)
          then (do m3 ← free_page pmm page m2; some (null, m3))
          else assert (page_ref page m2 == 1) >> some (page, m2)

  -- A loop of `exit_mmap`, for what it does with the two ends of each area.
  unfoldable pub each_area :
      ℕ → (ℕ → ℕ → Memory → Option Memory) → (list le : Ptr) → Spaces → Memory → Option Memory
  each_area Prim.Native.Nat.zero run list le s m = none
  each_area (suc f) run list le s m =
      let next = list_next s.mmap_links le in
      let rest = run (s.vmas next).vm_start (s.vmas next).vm_end m >>= λ m'.
      each_area f run list next s m' in
      if next == list then some m else rest

  unfoldable pub exit_mmap : (mm : Ptr) → Spaces → Memory → Option Memory
  exit_mmap mm s m = do
    assert (not (mm == null) && ((s.mms mm).mm_count == 0))
    let pgdir = (s.mms mm).pgdir
    m1 ← each_area ((s.mms mm).map_count + 1) (unmap_range pgdir) mm mm s m
    each_area ((s.mms mm).map_count + 1) (exit_range pgdir) mm mm s m1

  -- The loop of `dup_mmap`, last area first; the list holds what the calls of kmalloc answer.
  unfoldable pub dup_areas :
      ℕ → (to src le : Ptr) → List Ptr → Spaces → Memory → Option (ℤ × Spaces × Memory)
  dup_areas Prim.Native.Nat.zero to src le mallocs s m = none
  dup_areas (suc f) to src le [] s m =
      if list_prev s.mmap_links le == src then some (pos 0, s, m) else none
  dup_areas (suc f) to src le (answer ∷ mallocs) s m =
      let prev = list_prev s.mmap_links le in
      let v = s.vmas prev in
      let (nvma, s1) = vma_create answer v.vm_start v.vm_end v.vm_flags s in
      let rest = (do
        s2 ← insert_vma_struct to nvma s1
        (ret, m') ← copy_range (s2.mms to).pgdir (s2.mms src).pgdir v.vm_start v.vm_end m
        let later = dup_areas f to src prev mallocs s2 m'
        if is_zero ret then later else some (e_no_mem, s2, m')) in
      if prev == src
      then some (pos 0, s, m)
      else if nvma == null
      then some (e_no_mem, s1, m)
      else rest

  unfoldable pub dup_mmap :
      (to src : Ptr) → List Ptr → Spaces → Memory → Option (ℤ × Spaces × Memory)
  dup_mmap to src mallocs s m = do
    assert (not (to == null) && not (src == null))
    dup_areas ((s.mms src).map_count + 1) to src src mallocs s m
