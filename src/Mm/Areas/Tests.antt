-- ===== src/Mm/Areas/Tests.antt =====
-- A space at address 1 with two areas: 10 from 0x201000 on, which may be written, and 20 from
-- 0x300000 on, which may not.
use os_lab.Base.{
  none, false, inl, refl, ◌⊎◌, ◌&&◌, inr, ◌↔◌, true, arith, ◌==◌, ◌≡◌, ◌∷◌, if◌then◌else◌, Ends,
  Ptr, null, [],
}
use os_lab.Base.Int.{pos}
use os_lab.Libs.Links.Ring.{Ring}
use os_lab.Mm.Areas.Defs.{
  Spaces, find_vma, insert_vma_struct, mm_destroy, user_access, user_mem_check, round_down,
  round_up, mm_map, e_inval, e_no_mem,
}
use os_lab.Mm.Areas.Sorted.{IsSpace, area_of, is_clear}
use os_lab.Mm.Areas.Find.{find_vma_lem}
use os_lab.Mm.Areas.Insert.{Inserted, insert_vma_struct_lem}
use os_lab.Mm.Areas.Destroy.{mm_destroy_lem}
use os_lab.Mm.Areas.Check.{allowed, Allowed, user_mem_check_lem}
use os_lab.Libs.Strings.Move.{copied}
use os_lab.Mm.Areas.Copy.{copy_to_user, copy_to_user_safe}
use os_lab.Mm.Areas.Map.{Mapped, mm_map_fails, mm_map_lem}

abbrev two_areas : Spaces
two_areas = record {
  vmas = λ q.
      if q == 10
      then record { vm_mm = 1; vm_start = 2101248; vm_end = 2109440; vm_flags = 3 }
      else if q == 20
      then record { vm_mm = 1; vm_start = 3145728; vm_end = 3149824; vm_flags = 1 }
      else record { vm_mm = 0; vm_start = 2109440; vm_end = 2113536; vm_flags = 1 };
  mms = λ q. record {
    mmap_cache = 20;
    pgdir = 5;
    map_count = 2;
    sm_priv = null;
    mm_count = 0;
    mm_lock = 0;
  };
  mmap_links = record {
    prev = λ q. if q == 1 then 20 else if q == 10 then 1 else if q == 20 then 10 else 0;
    next = λ q. if q == 1 then 10 else if q == 10 then 20 else if q == 20 then 1 else 0;
  };
}

two_areas-IsSpace : IsSpace two_areas 1 (10 ∷ 20 ∷ [])
two_areas-IsSpace = record {
  ring = record { chain = ground arith; distinct = ground arith };
  areas = ground arith;
  counted = refl;
  no_null = ground arith;
  cached = inr (ground arith);
}

-- The cached area, 20, is not the one asked for.
find_vma_lem_example : Ends (find_vma 1 2105344 two_areas) λ (vma, s').
    (vma ≡ area_of two_areas.vmas 2105344 (10 ∷ 20 ∷ []))
    × IsSpace s' 1 (10 ∷ 20 ∷ [])
    × (s'.vmas ≡ two_areas.vmas)
find_vma_lem_example =
    find_vma_lem two_areas 1 (10 ∷ 20 ∷ []) 2105344 two_areas-IsSpace (ground arith)

insert_vma_struct_lem_example :
    ((is_clear two_areas.vmas 2109440 2113536 (10 ∷ 20 ∷ []) ≡ true)
      × Ends (insert_vma_struct 1 30 two_areas) λ s'. Inserted two_areas 1 30 (10 ∷ 20 ∷ []) s')
    ⊎ ((is_clear two_areas.vmas 2109440 2113536 (10 ∷ 20 ∷ []) ≡ false)
        × (insert_vma_struct 1 30 two_areas ≡ none))
insert_vma_struct_lem_example =
    insert_vma_struct_lem two_areas 1 30 (10 ∷ 20 ∷ []) two_areas-IsSpace (ground arith)
      (ground arith) (ground arith)

mm_destroy_lem_example :
    Ends
      (mm_destroy 1 two_areas)
      λ (freed, s'). (freed ≡ 10 ∷ 20 ∷ 1 ∷ []) × Ring s'.mmap_links 1 []
mm_destroy_lem_example = mm_destroy_lem two_areas 1 (10 ∷ 20 ∷ []) two_areas-IsSpace refl

user_mem_check_lem_example : Ends (user_mem_check 1 2101248 8192 true two_areas) λ (b, s').
    IsSpace s' 1 (10 ∷ 20 ∷ [])
    × (s'.vmas ≡ two_areas.vmas)
    × ((b ≡ true) ↔ (
        (user_access 2101248 2109440 ≡ true)
        × Allowed two_areas.vmas (10 ∷ 20 ∷ []) true 2101248 2109440))
user_mem_check_lem_example =
    user_mem_check_lem 1 (10 ∷ 20 ∷ []) true 2101248 8192 two_areas (ground arith) two_areas-IsSpace

-- The first address of the range is in area 10.
mm_map_fails_example : Ends (mm_map 1 2105000 5000 3 30 two_areas) λ (r, _, s').
    IsSpace s' 1 (10 ∷ 20 ∷ [])
    × (s'.vmas ≡ two_areas.vmas)
    × (r ≡ (
        if user_access (round_down 2105000) (round_up 2110000)
          && (area_of two_areas.vmas (round_down 2105000) (10 ∷ 20 ∷ []) == null)
        then e_no_mem
        else e_inval))
mm_map_fails_example =
    mm_map_fails 1 (10 ∷ 20 ∷ []) 2105000 5000 3 30 two_areas (ground arith) two_areas-IsSpace
      (inl (ground arith))

-- The range begins below area 10 and meets it.
mm_map_lem_example :
    ((is_clear two_areas.vmas (round_down 2097152) (round_up 2105344) (10 ∷ 20 ∷ []) ≡ true)
      × Ends (mm_map 1 2097152 8192 3 30 two_areas) λ (r, made, s').
        (r ≡ pos 0)
        × (made ≡ 30)
        × Mapped two_areas.vmas 1 (10 ∷ 20 ∷ []) 30 (round_down 2097152) (round_up 2105344) 3 s')
    ⊎ ((is_clear two_areas.vmas (round_down 2097152) (round_up 2105344) (10 ∷ 20 ∷ []) ≡ false)
        × (mm_map 1 2097152 8192 3 30 two_areas ≡ none))
mm_map_lem_example =
    mm_map_lem 1 (10 ∷ 20 ∷ []) 2097152 8192 3 30 two_areas (ground arith) two_areas-IsSpace
      (ground arith) (ground arith) (ground arith) (ground arith)

copy_to_user_safe_example :
    Ends (copy_to_user 1 2101250 500 16 two_areas (λ q. q)) λ (ok, s', mem').
      IsSpace s' 1 (10 ∷ 20 ∷ [])
      × ((q : Ptr) → mem' q ≡ (if ok then copied 2101250 500 16 (λ a. a) q else q))
      × ((q : Ptr) → (mem' q ≡ q) ⊎ (allowed two_areas.vmas (10 ∷ 20 ∷ []) true q ≡ true))
copy_to_user_safe_example =
    copy_to_user_safe 1 (10 ∷ 20 ∷ []) 2101250 500 16 two_areas (λ q. q) (ground arith)
      two_areas-IsSpace (λ lt. omega arith) (omega arith)
