-- ===== src/Mm/Tests.antt =====
-- Free pages: two pages from 10 on and three from 20 on.
use os_lab.Base.{
  Ptr, ℕ, ◌≤◌, ◌≡◌, true, false, ◌||◌, ◌==◌, [], ◌∷◌, refl, arith, if◌then◌else◌, inr, Ends,
}
use os_lab.Mm.FirstFit.Defs.{
  FreeArea, default_init, default_init_memmap, default_alloc_pages, default_free_pages,
}
use os_lab.Mm.FirstFit.Blocks.{IsFree, in_range, in_blocks}
use os_lab.Mm.FirstFit.Alloc.{Answer, default_alloc_pages-IsFree}
use os_lab.Mm.FirstFit.Free.{InUse}
use os_lab.Mm.FirstFit.Release.{Freed, default_free_pages-IsFree}
use os_lab.Mm.FirstFit.Twice.{default_alloc_pages_twice}
use os_lab.Mm.FirstFit.Init.{default_init_memmap-IsFree}

abbrev five_free : FreeArea
five_free = record {
  pages = λ q. record {
    ref = 0;
    reserved = false;
    is_head = (q == 10) || (q == 20);
    property = if q == 10 then 2 else if q == 20 then 3 else 0;
  };
  page_links = record {
    prev = λ q. if q == 1 then 20 else if q == 10 then 1 else if q == 20 then 10 else 0;
    next = λ q. if q == 1 then 10 else if q == 10 then 20 else if q == 20 then 1 else 0;
  };
  nr_free = 5;
}

five_free-IsFree : IsFree five_free (10 ∷ 20 ∷ [])
five_free-IsFree = record {
  ring = record { chain = ground arith; distinct = ground arith };
  blocks = ground arith;
  counted = refl;
  few = omega arith;
}

default_alloc_pages-IsFree_example :
    Ends (default_alloc_pages 3 five_free) λ (page, m'). Answer five_free (10 ∷ 20 ∷ []) 3 page m'
default_alloc_pages-IsFree_example =
    default_alloc_pages-IsFree five_free (10 ∷ 20 ∷ []) 3 five_free-IsFree (omega arith)

in_use :
    (base n : ℕ)
    → 12 ≤ base
    → ((q : Ptr) → in_range base n q ≡ true → in_range 20 3 q ≡ false)
    → InUse five_free.pages (10 ∷ 20 ∷ []) base n
in_use base n le out = record {
  above = omega arith;
  not_free = λ q i. ground (arith, out q);
  not_reserved = λ q i. refl;
  unmarked = λ q i. ground (arith, out q);
}

-- The block begins where the first one ends.
default_free_pages-IsFree_example :
    Ends (default_free_pages 12 8 five_free) λ m'. Freed five_free (10 ∷ 20 ∷ []) 12 8 m'
default_free_pages-IsFree_example =
    default_free_pages-IsFree five_free (10 ∷ 20 ∷ []) 12 8 five_free-IsFree (omega arith)
      (in_use 12 8 (omega arith) (λ q i. ground arith)) (omega arith) (inr (20, refl, omega arith))

default_alloc_pages_twice_example : Ends (default_free_pages 30 4 five_free) λ m1.
    Ends
      (default_alloc_pages 4 m1)
      λ (first, m2). (first ≡ 30) × Ends (default_alloc_pages 4 m2) λ (second, m3). second ≡ 30
default_alloc_pages_twice_example =
    default_alloc_pages_twice five_free 10 (20 ∷ []) 30 4 five_free-IsFree (omega arith)
      (in_use 30 4 (omega arith) (λ q i. ground arith)) (omega arith) (λ q i. ground arith)
      (omega arith, (omega arith, tt)) (omega arith)

abbrev all_reserved : FreeArea
all_reserved = record five_free {
  pages = λ q. record { ref = 1; reserved = true; is_head = false; property = 7 };
}

default_init_memmap-IsFree_example :
    Ends (default_init_memmap 5 9 (default_init all_reserved)) λ m'.
      IsFree m' (5 ∷ [])
      × (m'.nr_free ≡ 9)
      × ((q : Ptr) → in_blocks m'.pages (5 ∷ []) q ≡ in_range 5 9 q)
default_init_memmap-IsFree_example =
    default_init_memmap-IsFree all_reserved 5 9 (omega arith) (omega arith) (omega arith)
      (λ q i. refl)
