-- ===== src/Mm/FirstFit/Defs.antt =====
-- The operations of kern/mm/default_pmm.c. A page descriptor goes by the number of its page, as in the
-- array `pages`, so `page + n` is a sum; its node page_link has the same address, and the list's
-- head is below all of them. `none` is a failed assertion.
use os_lab.Base.{
  Ptr, null, ℕ, suc, ◌+◌, ◌-◌, ◌%◌, ◌^◌, Bool, true, false, not, ◌&&◌, ◌==◌, ltb, if◌then◌else◌,
  update, Option, none, some, ◌>>=◌, ◌>>◌, assert,
}
use os_lab.Libs.Links.{
  Links, list_init, list_add, list_add_before, list_del, list_next, list_prev, list_empty,
}

-- struct Page, with the two bits of flags that the kernel uses.
pub record Page : Type 0 where
  pub ref : ℕ
  pub reserved : Bool
  pub is_head : Bool
  pub property : ℕ

pub record FreeArea : Type 0 where
  pub pages : Ptr → Page
  pub page_links : Links
  pub nr_free : ℕ

abbrev pub free_list : Ptr
free_list = 1

unfoldable pub default_init : FreeArea → FreeArea
default_init m = record m { page_links = list_init free_list m.page_links; nr_free = 0 }

-- The first loop of `default_init_memmap`.
unfoldable pub init_pages : ℕ → Ptr → (Ptr → Page) → Option (Ptr → Page)
init_pages Prim.Native.Nat.zero p pages = some pages
init_pages (suc n) p pages = do
  assert (pages p).reserved
  init_pages n (suc p)
      (update pages p (record { ref = 0; reserved = false; is_head = false; property = 0 }))

-- The first loop of `default_free_pages`.
unfoldable pub clear_pages : ℕ → Ptr → (Ptr → Page) → Option (Ptr → Page)
clear_pages Prim.Native.Nat.zero p pages = some pages
clear_pages (suc n) p pages = do
  assert (not (pages p).reserved && not (pages p).is_head)
  clear_pages n (suc p)
      (update pages p (record (pages p) { ref = 0; reserved = false; is_head = false }))

-- base->property = n; SetPageProperty(base);
abbrev pub set_head : Ptr → ℕ → (Ptr → Page) → Ptr → Page
set_head base n pages = update pages base (record (pages base) { property = n; is_head = true })

abbrev pub clear_head : Ptr → (Ptr → Page) → Ptr → Page
clear_head p pages = update pages p (record (pages p) { is_head = false })

-- The loop that finds the place of `base`, from the node `le` on; `none` means that the fuel ran
-- out. After the last node the loop does not stop: it goes on with the list that has `base` in it.
unfoldable pub place : ℕ → (le base : Ptr) → Links → Option Links
place Prim.Native.Nat.zero le base l = none
place (suc f) le base l =
    let next = list_next l le in
    let later =
      place f next base (if list_next l next == free_list then list_add next base l else l) in
    if next == free_list
    then some l
    else if ltb base next
    then some (list_add_before next base l)
    else later

unfoldable pub insert_block : ℕ → Ptr → Links → Option Links
unfolding place
insert_block fuel base l =
    if list_empty l free_list then some (list_add free_list base l) else place fuel free_list base l

-- Each block has a page at least, so the list is no longer than nr_free.
unfoldable pub default_init_memmap : Ptr → ℕ → FreeArea → Option FreeArea
unfolding init_pages insert_block
default_init_memmap base n m = do
  assert (ltb 0 n)
  pages ← init_pages n base m.pages
  let free = (m.nr_free + n) % 2 ^ 32
  links ← insert_block (free + 2) base m.page_links
  some (record { pages = set_head base (n % 2 ^ 32) pages; page_links = links; nr_free = free })

-- The search of `default_alloc_pages`: NULL if no block from `le` on is large enough.
unfoldable pub first_fit : ℕ → (le : Ptr) → ℕ → FreeArea → Option Ptr
first_fit Prim.Native.Nat.zero le n m = none
first_fit (suc f) le n m =
    let next = list_next m.page_links le in
    let later = first_fit f next n m in
    if next == free_list
    then some null
    else if ltb (m.pages next).property n
    then later
    else some next

-- The block leaves the list; what is above its first n pages takes its place.
unfoldable pub take_pages : Ptr → ℕ → FreeArea → FreeArea
take_pages page n m =
    let prev = list_prev m.page_links page in
    let links = list_del page m.page_links in
    let size = (m.pages page).property in
    let split = ltb n size in
    let pages = if split then set_head (page + n) (size - n) m.pages else m.pages in
    record {
      pages = clear_head page pages;
      page_links = if split then list_add prev (page + n) links else links;
      nr_free = (m.nr_free + 2 ^ 32 - n) % 2 ^ 32;
    }

unfoldable pub default_alloc_pages : ℕ → FreeArea → Option (Ptr × FreeArea)
unfolding first_fit take_pages
default_alloc_pages n m = do
  assert (ltb 0 n)
  page ← if ltb m.nr_free n then some null else first_fit (m.nr_free + 2) free_list n m
  some (page, if page == null then m else take_pages page n m)

-- The block before `base` takes it in if it ends there.
unfoldable pub merge_prev : Ptr → FreeArea → Ptr × FreeArea
merge_prev base m =
    let p = list_prev m.page_links base in
    let size = (m.pages p).property in
    if not (p == free_list) && (p + size == base)
    then (
      p,
      record m {
        pages = clear_head base (
            update m.pages p
              (record (m.pages p) { property = (size + (m.pages base).property) % 2 ^ 32 }));
        page_links = list_del base m.page_links;
      },
    )
    else (base, m)

-- `base` takes in the block that begins where it ends.
unfoldable pub merge_next : Ptr → FreeArea → FreeArea
merge_next base m =
    let p = list_next m.page_links base in
    let size = (m.pages base).property in
    if not (p == free_list) && (base + size == p)
    then record m {
      pages = clear_head p (
          update m.pages base
            (record (m.pages base) { property = (size + (m.pages p).property) % 2 ^ 32 }));
      page_links = list_del p m.page_links;
    }
    else m

unfoldable pub default_free_pages : Ptr → ℕ → FreeArea → Option FreeArea
unfolding clear_pages insert_block merge_prev merge_next
default_free_pages base n m = do
  assert (ltb 0 n)
  pages ← clear_pages n base m.pages
  let free = (m.nr_free + n) % 2 ^ 32
  links ← insert_block (free + 2) base m.page_links
  let (block, merged) =
      merge_prev base
        (record { pages = set_head base (n % 2 ^ 32) pages; page_links = links; nr_free = free })
  some (merge_next block merged)

unfoldable pub default_nr_free_pages : FreeArea → ℕ
default_nr_free_pages m = m.nr_free
