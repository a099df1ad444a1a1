-- ===== src/Mm/FirstFit/Init.antt =====
-- `default_init` and `default_init_memmap`: the first region of free pages.
use os_lab.Base.{
  Ptr, ℕ, suc, ◌+◌, ◌<◌, ◌≤◌, ◌^◌, ◌%◌, ◌≡◌, true, false, [], ◌∷◌, refl, arith, some, Ends, update,
  ltb,
}
use os_lab.Libs.Links.{list_add, list_empty}
use os_lab.Libs.Links.Edit.{list_add-Ring}
use os_lab.Libs.Links.Detach.{list_init-Ring}
use os_lab.Mm.FirstFit.Defs.{
  Page, FreeArea, free_list, default_init, init_pages, insert_block, default_init_memmap, set_head,
}
use os_lab.Mm.FirstFit.Blocks.{IsFree, in_range, in_blocks}

init_pages_runs :
    (n : ℕ) (base : Ptr) (f : Ptr → Page)
    → ((q : Ptr) → in_range base n q ≡ true → (f q).reserved ≡ true)
    → Ends (init_pages n base f) λ g. Unit {0}
unfolding init_pages
init_pages_runs Prim.Native.Nat.zero base f h = (f, refl, tt)
init_pages_runs (suc n) base f h =
    let own = h base (ground arith) in
    let (g, run, u) =
      init_pages_runs n (suc base)
        (update f base (record { ref = 0; reserved = false; is_head = false; property = 0 }))
        (λ q i. ground (arith, h q)) in
    (g, rw own run, tt)

init_runs :
    (m : FreeArea) (base n : ℕ) (g : Ptr → Page)
    → 0 < n
    → m.page_links.next free_list ≡ free_list
    → init_pages n base m.pages ≡ some g
    → default_init_memmap base n m
      ≡ some (record {
        pages = set_head base (n % 2 ^ 32) g;
        page_links = list_add free_list base m.page_links;
        nr_free = (m.nr_free + n) % 2 ^ 32;
      })
unfolding default_init_memmap insert_block list_empty
init_runs m base n g pos e run = let t : ltb 0 n ≡ true = ground arith in rw (t, run, e)

-- default_init and then default_init_memmap on n > 0 reserved pages from base on, fewer than 2 ^
-- 32, make a sound free list whose free pages are those.
pub default_init_memmap-IsFree :
    (m : FreeArea) (base n : ℕ)
    → 0 < n
    → n < 2 ^ 32
    → 2 ≤ base
    → ((q : Ptr) → in_range base n q ≡ true → (m.pages q).reserved ≡ true)
    → Ends (default_init_memmap base n (default_init m)) λ m'.
      IsFree m' (base ∷ [])
      × (m'.nr_free ≡ n)
      × ((q : Ptr) → in_blocks m'.pages (base ∷ []) q ≡ in_range base n q)
unfolding default_init
default_init_memmap-IsFree m base n pos few above h =
    let (g, run, u) = init_pages_runs n base m.pages h in
    let ring = list_init-Ring m.page_links free_list in
    let size : ((set_head base (n % 2 ^ 32) g) base).property ≡ n = ground arith in
    (
      _,
      init_runs (default_init m) base n g pos ring.chain.0 run,
      (
        record {
          ring = list_add-Ring [] base ring (ground arith);
          blocks = ground (arith, size);
          counted = omega (arith, size);
          few = omega arith;
        },
        omega arith,
        λ q. ground (arith, size),
      ),
    )
