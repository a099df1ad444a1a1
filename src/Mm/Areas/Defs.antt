-- ===== src/Mm/Areas/Defs.antt =====
-- The operations of kern/mm/vmm.c on the areas of an address space. The node list_link of an area has
-- the area's address, and the list's head, the first field of the space, has the space's. What
-- kmalloc answers is an argument. `none` is a failed assertion.
use os_lab.Base.{
  ◌++◌, Ptr, null, ℕ, suc, ◌+◌, ◌-◌, ◌/◌, ◌%◌, ◌^◌, Bool, true, false, not, ◌&&◌, ◌||◌, ◌==◌, ltb,
  leb, if◌then◌else◌, update, Option, none, some, ◌>>=◌, ◌>>◌, assert, List, [], ◌∷◌,
}
use os_lab.Base.Int.{ℤ, pos, negsuc}
use os_lab.Libs.Links.{Links, list_init, list_add_after, list_del, list_next}

pub record Vma : Type 0 where
  pub vm_mm : Ptr
  pub vm_start : ℕ
  pub vm_end : ℕ
  pub vm_flags : ℕ

pub record MmStruct : Type 0 where
  pub mmap_cache : Ptr
  pub pgdir : Ptr
  pub map_count : ℕ
  pub sm_priv : Ptr
  pub mm_count : ℕ
  pub mm_lock : ℕ

pub record Spaces : Type 0 where
  pub vmas : Ptr → Vma
  pub mms : Ptr → MmStruct
  pub mmap_links : Links

unfoldable pub mm_create : Ptr → Spaces → Ptr × Spaces
mm_create mm s = if mm == null then (null, s) else (
  mm,
  record s {
    mms = update s.mms mm (record {
      mmap_cache = null;
      pgdir = null;
      map_count = 0;
      sm_priv = null;
      mm_count = 0;
      mm_lock = 0;
    });
    mmap_links = list_init mm s.mmap_links;
  },
)

unfoldable pub vma_create : (vma : Ptr) → (vm_start vm_end vm_flags : ℕ) → Spaces → Ptr × Spaces
vma_create vma vm_start vm_end vm_flags s = if vma == null then (null, s) else (
  vma,
  record s {
    vmas =
        update s.vmas vma
          (record (s.vmas vma) { vm_start = vm_start; vm_end = vm_end; vm_flags = vm_flags });
  },
)

abbrev pub contains : Vma → ℕ → Bool
contains v addr = leb v.vm_start addr && ltb addr v.vm_end

-- The loop of `find_vma`; `none` means that the fuel ran out.
unfoldable pub search : ℕ → (list le : Ptr) → ℕ → Spaces → Option Ptr
search Prim.Native.Nat.zero list le addr s = none
search (suc f) list le addr s =
    let next = list_next s.mmap_links le in
    let later = search f list next addr s in
    if next == list then some null else if contains (s.vmas next) addr then some next else later

abbrev pub set_cache : Ptr → Ptr → Spaces → Spaces
set_cache mm vma s = record s { mms = update s.mms mm (record (s.mms mm) { mmap_cache = vma }) }

-- map_count is the number of the areas.
unfoldable pub find_vma : (mm : Ptr) → (addr : ℕ) → Spaces → Option (Ptr × Spaces)
unfolding search
find_vma mm addr s =
    let cache = (s.mms mm).mmap_cache in
    let hit = not (cache == null) && contains (s.vmas cache) addr in
    if mm == null then some (null, s) else do
      vma ← if hit then some cache else search ((s.mms mm).map_count + 1) mm mm addr s
      some (vma, if vma == null then s else set_cache mm vma s)

abbrev pub check_vma_overlap : (prev next : Vma) → Option (Unit {0})
check_vma_overlap prev next = do
  assert (ltb prev.vm_start prev.vm_end)
  assert (leb prev.vm_end next.vm_start)
  assert (ltb next.vm_start next.vm_end)

-- The loop of `insert_vma_struct`: the last node from `le` on before an area that begins above
-- `start`. At the loop's head le_prev is le.
unfoldable pub find_prev : ℕ → (list le : Ptr) → (start : ℕ) → Spaces → Option Ptr
find_prev Prim.Native.Nat.zero list le start s = none
find_prev (suc f) list le start s =
    let next = list_next s.mmap_links le in
    let later = find_prev f list next start s in
    if next == list then some le else if ltb start (s.vmas next).vm_start then some le else later

unfoldable pub insert_vma_struct : (mm vma : Ptr) → Spaces → Option Spaces
unfolding find_prev
insert_vma_struct mm vma s = do
  let v = s.vmas vma
  assert (ltb v.vm_start v.vm_end)
  le_prev ← find_prev ((s.mms mm).map_count + 1) mm mm v.vm_start s
  let le_next = list_next s.mmap_links le_prev
  if le_prev == mm then some tt else check_vma_overlap (s.vmas le_prev) v
  if le_next == mm then some tt else check_vma_overlap v (s.vmas le_next)
  some (record {
    vmas = update s.vmas vma (record v { vm_mm = mm });
    mms = update s.mms mm (record (s.mms mm) { map_count = (s.mms mm).map_count + 1 });
    mmap_links = list_add_after le_prev vma s.mmap_links;
  })

-- The loop of `mm_destroy`: the areas it frees, first to last, and the list that is left.
unfoldable pub free_areas : ℕ → (list : Ptr) → Links → Option (List Ptr × Links)
free_areas Prim.Native.Nat.zero list l = none
free_areas (suc f) list l =
    let le = list_next l list in
    let later = free_areas f list (list_del le l) >>= λ (freed, l'). some (le ∷ freed, l') in
    if le == list then some ([], l) else later

-- The pointers that kfree gets, in order, the space last.
unfoldable pub mm_destroy : Ptr → Spaces → Option (List Ptr × Spaces)
unfolding free_areas
mm_destroy mm s = do
  assert ((s.mms mm).mm_count == 0)
  (freed, links) ← free_areas ((s.mms mm).map_count + 1) mm s.mmap_links
  some (freed ++ mm ∷ [], record s { mmap_links = links })

-- USER_ACCESS, ROUNDDOWN and ROUNDUP to pages, for uintptr_t.
abbrev pub user_access : (start finish : ℕ) → Bool
user_access start finish = leb 2097152 start && (ltb start finish && leb finish 2147483648)

abbrev pub kern_access : (start finish : ℕ) → Bool
kern_access start finish =
    leb 18446744072637906944 start && (ltb start finish && leb finish 18446744072770027520)

abbrev pub round_down : ℕ → ℕ
round_down a = a - a % 4096

abbrev pub round_up : ℕ → ℕ
round_up a = round_down ((a + 4095) % 2 ^ 64)

-- -E_INVAL and -E_NO_MEM.
abbrev pub e_inval : ℤ
e_inval = negsuc 2

abbrev pub e_no_mem : ℤ
e_no_mem = negsuc 3

-- The result, and the area, which the caller gets if vma_store is not NULL.
unfoldable pub mm_map :
    (mm : Ptr) (addr len vm_flags : ℕ) (new : Ptr) → Spaces → Option (ℤ × Ptr × Spaces)
mm_map mm addr len vm_flags new s =
    let start = round_down addr in
    let finish = round_up ((addr + len) % 2 ^ 64) in
    if not (user_access start finish) then some (e_inval, null, s) else do
      assert (not (mm == null))
      (vma, s1) ← find_vma mm start s
      let (made, s2) = vma_create new start finish vm_flags s1
      if not (vma == null) && ltb (s1.vmas vma).vm_start finish
          then some (e_inval, null, s1)
          else if made == null
          then some (e_no_mem, null, s2)
          else do s3 ← insert_vma_struct mm made s2; some (pos 0, made, s3)

-- VM_READ, VM_WRITE and VM_STACK are the bits 0, 1 and 3.
abbrev pub has_flag : (bit flags : ℕ) → Bool
has_flag bit flags = flags / bit % 2 == 1

-- Whether the area lets the access at `start` pass.
abbrev pub permits : Vma → (write : Bool) → (start : ℕ) → Bool
permits v write start =
    has_flag (if write then 2 else 1) v.vm_flags
    && not (write && (has_flag 8 v.vm_flags && ltb start ((v.vm_start + 4096) % 2 ^ 64)))

-- The loop of `user_mem_check`.
unfoldable pub check_areas :
    ℕ → (mm : Ptr) → (start finish : ℕ) → Bool → Spaces → Option (Bool × Spaces)
unfolding find_vma
check_areas Prim.Native.Nat.zero mm start finish write s = none
check_areas (suc f) mm start finish write s = if not (ltb start finish) then some (true, s) else do
  (vma, s') ← find_vma mm start s
  let v = s'.vmas vma
  let later = check_areas f mm v.vm_end finish write s'
  if (vma == null) || ltb start v.vm_start
      then some (false, s')
      else if not (permits v write start)
      then some (false, s')
      else later

unfoldable pub user_mem_check : (mm : Ptr) → (addr len : ℕ) → Bool → Spaces → Option (Bool × Spaces)
unfolding check_areas
user_mem_check mm addr len write s =
    let finish = (addr + len) % 2 ^ 64 in
    if mm == null
    then some (kern_access addr finish, s)
    else if not (user_access addr finish)
    then some (false, s)
    else check_areas ((s.mms mm).map_count + 1) mm addr finish write s
