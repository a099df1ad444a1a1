-- ===== src/Mm/Tables/Tests.antt =====
-- Tests of the page tables, at the memory of Mm/Tables/Sample.antt.
use os_lab.Base.{
  null, ◌≡◌, ◌⊎◌, ◌==◌, true, false, ◌&&◌, inl, if◌then◌else◌, refl, arith, Ends, [], ◌∷◌,
}
use os_lab.Base.Int.{pos}
use os_lab.Mm.Areas.Defs.{Spaces, e_no_mem}
use os_lab.Mm.Areas.Sorted.{IsSpace}
use os_lab.Mm.Tables.Defs.{
  null_slot, is_valid, pte2page, pdx1, pdx0, get_pte, page_remove, page_insert,
}
use os_lab.Mm.Tables.Tree.{IsAt, no_place}
use os_lab.Mm.Tables.GetPte.{Reached, get_pte_lem}
use os_lab.Mm.Tables.Remove.{Removed, page_remove_lem}
use os_lab.Mm.Tables.Insert.{Inserted, page_insert_lem}
use os_lab.Mm.Tables.Ranges.{unmap_range, exit_range, each_area}
use os_lab.Mm.Tables.Unmapped.{Unmapped}
use os_lab.Mm.Tables.Unmap.{unmap_range_lem}
use os_lab.Mm.Tables.Exit.{Exited, exit_range_lem}
use os_lab.Mm.Tables.ExitMmap.{AreasGone, unmap_areas}
use os_lab.Mm.Tables.FirstFit.{default_pmm_manager, FreePages, default_pmm_manager-Gives}
use os_lab.Mm.Tables.TakeBack.{default_pmm_manager-Takes}
use os_lab.Mm.Tables.Manager.{Gives, Takes}
use os_lab.Mm.Tables.Sample.{
  kernel, tables, four_pages, place, free, four_pages-IsMemory, four_pages-AreApart,
}

-- The table for the address is missing.
get_pte_lem_example :
    Ends
      (get_pte default_pmm_manager 6 4194304 true four_pages)
      λ (e, m'). Reached (FreePages kernel) four_pages 6 place free 4194304 true e m'
get_pte_lem_example =
    get_pte_lem default_pmm_manager (FreePages kernel) (default_pmm_manager-Gives kernel) four_pages
      6 place free 4194304 true (omega arith) four_pages-IsMemory

page_remove_lem_example :
    Ends
      (page_remove default_pmm_manager 6 2097152 four_pages)
      λ m'. Removed (FreePages kernel) four_pages 6 place free 2097152 m'
page_remove_lem_example =
    page_remove_lem default_pmm_manager (FreePages kernel) four_pages 6 place free
      four_pages-IsMemory 2097152 (omega arith) (default_pmm_manager-Gives kernel)
      (default_pmm_manager-Takes kernel) four_pages-AreApart (λ v. refl)

five-IsAt : IsAt 16 place free 5 no_place
five-IsAt = record { here = refl; below = omega arith; used = refl; ne_null = omega arith }

-- Page 5 takes the address of page 4.
page_insert_lem_example :
    Ends (page_insert default_pmm_manager 6 5 2097152 30 four_pages) λ (n, m').
      ((n ≡ e_no_mem)
        × Reached (FreePages kernel) four_pages 6 place free 2097152 true null_slot m')
      ⊎ ((n ≡ pos 0) × Inserted (FreePages kernel) four_pages 6 place free 2097152 5 30 m')
page_insert_lem_example =
    page_insert_lem default_pmm_manager (FreePages kernel) (default_pmm_manager-Gives kernel)
      (default_pmm_manager-Takes kernel) four_pages 6 place free 2097152 5 30 no_place
      four_pages-IsMemory five-IsAt (inl refl) (omega arith) (omega arith) (omega arith)
      four_pages-AreApart (λ v. refl)

unmap_range_lem_example :
    Ends
      (unmap_range default_pmm_manager 6 2097152 2105344 four_pages)
      λ m'. Unmapped (FreePages kernel) four_pages 6 place free 2097152 2105344 m'
unmap_range_lem_example =
    unmap_range_lem default_pmm_manager (FreePages kernel) (default_pmm_manager-Gives kernel)
      (default_pmm_manager-Takes kernel) four_pages 6 place free 2097152 2105344 four_pages-IsMemory
      four_pages-AreApart refl (omega arith) (omega arith) (ground arith)

-- The directory goes, although page 4 is still mapped.
exit_range_lem_example : Ends (exit_range default_pmm_manager 6 2097152 2101248 four_pages) λ m'.
    (((is_valid (tables 6 (pdx1 2097152))
          && is_valid (tables (pte2page (tables 6 (pdx1 2097152))) (pdx0 2097152)))
        ≡ false)
      × (m' ≡ four_pages))
    ⊎ (((is_valid (tables 6 (pdx1 2097152))
            && is_valid (tables (pte2page (tables 6 (pdx1 2097152))) (pdx0 2097152)))
          ≡ true)
        × Exited (FreePages kernel) four_pages 6 place free 2097152 m')
exit_range_lem_example =
    exit_range_lem default_pmm_manager (FreePages kernel) (default_pmm_manager-Takes kernel)
      four_pages 6 place free four_pages-IsMemory 2097152 2101248 (omega arith) (omega arith)
      (omega arith) four_pages-AreApart refl (omega arith) (omega arith) (ground arith)

abbrev one_area : Spaces
one_area = record {
  vmas = λ q. record { vm_mm = 1; vm_start = 2097152; vm_end = 2105344; vm_flags = 3 };
  mms = λ q. record {
    mmap_cache = null;
    pgdir = 6;
    map_count = 1;
    sm_priv = null;
    mm_count = 0;
    mm_lock = 0;
  };
  mmap_links = record {
    prev = λ q. if q == 7 then 8 else if q == 8 then 7 else 0;
    next = λ q. if q == 7 then 8 else if q == 8 then 7 else 0;
  };
}

one_area-IsSpace : IsSpace one_area 7 (8 ∷ [])
one_area-IsSpace = record {
  ring = record { chain = ground arith; distinct = ground arith };
  areas = ground arith;
  counted = refl;
  no_null = ground arith;
  cached = inl refl;
}

unmap_areas_example :
    Ends
      (each_area default_pmm_manager 2 (unmap_range default_pmm_manager 6) 7 7 one_area four_pages)
      λ m'. AreasGone (FreePages kernel) four_pages 6 place one_area.vmas (8 ∷ []) m'
unmap_areas_example =
    unmap_areas default_pmm_manager (FreePages kernel) (default_pmm_manager-Gives kernel)
      (default_pmm_manager-Takes kernel) one_area 6 place 7 four_pages-AreApart (8 ∷ []) four_pages
      free one_area-IsSpace four_pages-IsMemory refl (omega arith, omega arith, ground arith, tt)

default_pmm_manager-Gives_example : Gives default_pmm_manager (FreePages kernel)
default_pmm_manager-Gives_example = default_pmm_manager-Gives kernel

default_pmm_manager-Takes_example : Takes default_pmm_manager (FreePages kernel) kernel
default_pmm_manager-Takes_example = default_pmm_manager-Takes kernel
