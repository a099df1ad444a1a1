-- ===== src/Mm/FirstFit/Twice.antt =====
-- What comes of a block that stands before itself in the free list: it can be allocated twice.
use os_lab.Base.{
  Ptr, null, ℕ, ◌+◌, ◌-◌, ◌<◌, ◌≤◌, ◌^◌, ◌≡◌, ◌≢◌, true, false, ==_ne, ltb, List, [], ◌∷◌, ◌++◌,
  has, has-append, refl, arith, length, length-append, ◌∙◌, some, Ends,
}
use os_lab.Libs.Links.{Links, list_del, list_del_between}
use os_lab.Mm.FirstFit.Defs.{
  clear_head, Page, FreeArea, free_list, default_free_pages, default_alloc_pages, take_pages,
}
use os_lab.Mm.FirstFit.Blocks.{IsFree, SameBlocks, SameBlocks-rest, length_le_total}
use os_lab.Mm.FirstFit.Alloc.{Forward, first_of, AllSmall, first_fit-Forward}
use os_lab.Mm.FirstFit.Free.{InUse}
use os_lab.Mm.FirstFit.Last.{Forward-frame, default_free_pages-Misplaced}

first_of_last :
    (f : Ptr → Page) (n : ℕ) (xs : List Ptr) (b : Ptr)
    → AllSmall f n xs
    → n ≤ (f b).property
    → first_of f n (xs ++ b ∷ []) ≡ b
first_of_last f n [] b s le = ground arith
first_of_last f n (x ∷ xs) b s le = ground (arith, s.0, first_of_last f n xs b s.1)

small-SameBlocks :
    {f g : Ptr → Page} (n : ℕ) (xs : List Ptr)
    → SameBlocks f g xs
    → AllSmall f n xs
    → AllSmall g n xs
small-SameBlocks n [] s a = tt
small-SameBlocks n (x ∷ xs) s a =
    (rw (s.property_same x (ground arith)) a.0, small-SameBlocks n xs (SameBlocks-rest s) a.1)

-- A list that leads forward to the block `b`, the first large enough.
record LeadsTo (m : FreeArea) (xs : List Ptr) (b n : ℕ) : Type 0 where
  prev_self : m.page_links.prev b ≡ b
  next_head : m.page_links.next b ≡ free_list
  forward : Forward m.page_links free_list (xs ++ b ∷ []) free_list
  size : (m.pages b).property ≡ n
  small : AllSmall m.pages n xs
  short : length xs ≤ m.nr_free
  enough : n ≤ m.nr_free
  few : m.nr_free < 2 ^ 32
  out : has free_list (xs ++ b ∷ []) ≡ false
  ne_null : b ≢ null

alloc_runs :
    {m : FreeArea} {xs : List Ptr} {b n : ℕ}
    → LeadsTo m xs b n
    → 0 < n
    → default_alloc_pages n m ≡ some (b, take_pages b n m)
unfolding default_alloc_pages
alloc_runs {m} {xs} {b} {n} h pos =
    let t : ltb 0 n ≡ true = ground arith in
    let u : ltb m.nr_free n ≡ false = ground (arith, h.enough) in
    let e =
      first_fit-Forward (m.nr_free + 2) free_list (xs ++ b ∷ []) n m h.forward h.out
        (omega (arith, length-append xs (b ∷ []), h.short)) in
    rw
      (
        t,
        u,
        e,
        first_of_last m.pages n xs b h.small (omega (arith, h.size)),
        ==_ne b null h.ne_null,
      )
      refl

del_next : (l : Links) (b q : Ptr) → l.prev b ≡ b → (list_del b l).next q ≡ l.next q
unfolding list_del list_del_between
del_next l b q e = ground arith

del_prev : (l : Links) (b : Ptr) → l.prev b ≡ b → l.next b ≢ b → (list_del b l).prev b ≡ b
unfolding list_del list_del_between
del_prev l b e ne = ground arith

-- Taking the block leaves the list leading to it.
take_leads :
    {m : FreeArea} {xs : List Ptr} {b n : ℕ}
    → LeadsTo m xs b n
    → 0 < n
    → length xs ≤ m.nr_free - n
    → n ≤ m.nr_free - n
    → has b xs ≡ false
    → LeadsTo (take_pages b n m) xs b n
unfolding take_pages
take_leads {m} {xs} {b} {n} h pos room enough out =
    let t : ltb n (m.pages b).property ≡ false = ground (arith, h.size) in
    rw t (record {
      prev_self =
          del_prev m.page_links b h.prev_self
            (ground (arith, h.next_head, h.out, has-append free_list xs (b ∷ [])));
      next_head = del_next m.page_links b b h.prev_self ∙ h.next_head;
      forward =
          Forward-frame m.page_links (list_del b m.page_links) free_list (xs ++ b ∷ []) free_list
            (λ q. del_next m.page_links b q h.prev_self) h.forward;
      size = ground (arith, h.size);
      small =
          small-SameBlocks {f = m.pages} {g = clear_head b m.pages} n xs
            (record { property_same = λ q i. ground arith; head_same = λ q i. ground (arith, out) })
            h.small;
      short = omega (arith, h.few, h.enough);
      enough = omega (arith, h.few, h.enough);
      few = omega arith;
      out = h.out;
      ne_null = h.ne_null;
    })

-- Let the free list be sound and have a block at least, let every free block be smaller than n
-- pages and below the block of n pages, all in use and n not 0, that is freed, let n pages be free
-- before, and let their number and n be below 2 ^ 32 together. Then freeing the block succeeds,
-- default_alloc_pages hands out its pages for a request of n, and hands out the same pages again
-- for the next request of n.
pub default_alloc_pages_twice :
    (m : FreeArea) (x : Ptr) (xs : List Ptr) (base n : ℕ)
    → IsFree m (x ∷ xs)
    → 0 < n
    → InUse m.pages (x ∷ xs) base n
    → m.nr_free + n < 2 ^ 32
    → ((q : Ptr) → has q (x ∷ xs) ≡ true → q < base)
    → AllSmall m.pages n (x ∷ xs)
    → n ≤ m.nr_free
    → Ends (default_free_pages base n m) λ m1.
      Ends (default_alloc_pages n m1) λ (first, m2).
        (first ≡ base) × Ends (default_alloc_pages n m2) λ (second, m3). second ≡ base
default_alloc_pages_twice m x xs base n is pos u few lo small enough =
    let (m1, run, h) = default_free_pages-Misplaced m x xs base n is pos u few lo in
    let start : LeadsTo m1 (x ∷ xs) base n = record {
      prev_self = h.prev_self;
      next_head = h.next_head;
      forward = h.forward;
      size = h.size;
      small = small-SameBlocks n (x ∷ xs) h.same small;
      short = omega (arith, h.more, length_le_total m.pages 2 (x ∷ xs) is.blocks, is.counted);
      enough = omega (arith, h.more);
      few = omega (arith, h.more);
      out = ground (arith, is.ring.distinct.0, u.above, has-append free_list (x ∷ xs) (base ∷ []));
      ne_null = omega (arith, u.above);
    } in
    let again =
      take_leads start pos
        (omega (arith, h.more, length_le_total m.pages 2 (x ∷ xs) is.blocks, is.counted))
        (omega (arith, h.more)) (ground (arith, lo base)) in
    (
      m1,
      run,
      (
        (base, take_pages base n m1),
        alloc_runs start pos,
        (refl, ((base, take_pages base n (take_pages base n m1)), alloc_runs again pos, refl)),
      ),
    )
