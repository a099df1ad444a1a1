-- ===== src/Mm/FirstFit/Release.antt =====
-- What `default_free_pages` makes of a sound free list, with room above the freed pages.
use os_lab.Base.{
  Ptr, ℕ, ◌+◌, ◌<◌, ◌≤◌, ◌^◌, ◌%◌, ◌≡◌, ◌≢◌, true, false, ◌||◌, ==_ne, ltb, List, [], ◌∷◌, ◌++◌,
  has, has-append, refl, arith, length, length-append, ◌∙◌, ap, subst, some, Ends,
}
use os_lab.Libs.Links.{Links}
use os_lab.Libs.Links.Ring.{Ring}
use os_lab.Mm.FirstFit.Defs.{
  Page, FreeArea, free_list, clear_pages, insert_block, merge_prev, merge_next, set_head,
  default_free_pages,
}
use os_lab.Mm.FirstFit.Blocks.{
  length_le_total, Blocks, total, in_range, in_blocks, IsFree, SameBlocks, Blocks-frame,
  total-frame, in_blocks-frame, end_of-frame, has-in_blocks, total-append, in_blocks-append,
  Blocks-left, Blocks-right,
}
use os_lab.Mm.FirstFit.Middle.{same_front, same_back}
use os_lab.Mm.FirstFit.Merge.{Placed, merge_prev-Placed, merge_next-Settled}
use os_lab.Mm.FirstFit.Free.{InUse, clear_pages_runs, Around, around, HasRoom, insert_block-Ring}

-- The n pages are free again, and the other pages are as they were.
pub record Freed (m : FreeArea) (xs : List Ptr) (base n : ℕ) (m' : FreeArea) : Type 0 where
  pub rest : List Ptr
  pub free : IsFree m' rest
  pub more : m'.nr_free ≡ m.nr_free + n
  pub covers : (q : Ptr) → in_blocks m'.pages rest q ≡ (in_blocks m.pages xs q || in_range base n q)

abbrev pub marked : FreeArea → Ptr → ℕ → (Ptr → Page) → Links → FreeArea
marked m base n pages links = record {
  pages = set_head base (n % 2 ^ 32) pages;
  page_links = links;
  nr_free = (m.nr_free + n) % 2 ^ 32;
}

pub free_runs :
    (m : FreeArea) (base n : ℕ) (pages : Ptr → Page) (links : Links)
    → 0 < n
    → clear_pages n base m.pages ≡ some pages
    → insert_block ((m.nr_free + n) % 2 ^ 32 + 2) base m.page_links ≡ some links
    → default_free_pages base n m
      ≡ some (
          merge_next
            (merge_prev base (marked m base n pages links)).0
            (merge_prev base (marked m base n pages links)).1)
unfolding default_free_pages
free_runs m base n pages links pos e d = let t : ltb 0 n ≡ true = ground arith in rw (t, e, d)

raise :
    (f : Ptr → Page) (lo lo' : ℕ) (xs : List Ptr)
    → Blocks f lo xs
    → ((q : Ptr) → has q xs ≡ true → lo' ≤ q)
    → Blocks f lo' xs
raise f lo lo' [] b h = tt
raise f lo lo' (x ∷ xs) b h = (h x (ground arith), b.1, b.2, b.3)

module _ (m : FreeArea) (xs : List Ptr) (base n : ℕ) (is : IsFree m xs) (pos : 0 < n)
    (u : InUse m.pages xs base n) (few : m.nr_free + n < 2 ^ 32) where
  pub freed-SameBlocks :
      (g : Ptr → Page) (links : Links)
      → ((q : Ptr) → in_range base n q ≡ false → g q ≡ m.pages q)
      → SameBlocks m.pages (marked m base n g links).pages xs
  freed-SameBlocks g links same = record {
    property_same = λ q i.
        let h = has-in_blocks m.pages 2 xs q is.blocks i in
        rw (==_ne q base (apart q h.0), same q (away q h.0)) refl;
    head_same = λ q i.
        let h = has-in_blocks m.pages 2 xs q is.blocks i in
        rw (==_ne q base (apart q h.0), same q (away q h.0)) refl;
  }
    where
      away : (q : Ptr) → in_blocks m.pages xs q ≡ true → in_range base n q ≡ false
      away q i = ground (arith, u.not_free q)

      apart : (q : Ptr) → in_blocks m.pages xs q ≡ true → q ≢ base
      apart q i = ground (arith, u.not_free base)

  freed-Placed :
      (a : Around m.pages 2 xs base) (g : Ptr → Page) (links : Links)
      → ((q : Ptr) → in_range base n q ≡ false → g q ≡ m.pages q)
      → Ring links free_list (a.front ++ base ∷ a.back)
      → Placed
          (marked m base n g links)
          a.front
          base
          a.back
          1
          (λ q. in_blocks m.pages xs q || in_range base n q)
  freed-Placed a g links same ring =
      let s =
        subst (λ ys. SameBlocks m.pages (marked m base n g links).pages ys) a.whole
          (freed-SameBlocks g links same) in
      let sf = same_front a.front a.back s in
      let sb = same_back a.front a.back s in
      let bl = subst (λ ys. Blocks m.pages 2 ys) a.whole is.blocks in
      let size : ((marked m base n g links).pages base).property ≡ n = ground arith in
      record {
        ring = ring;
        above = u.above;
        before = Blocks-frame 2 a.front sf (Blocks-left m.pages 2 a.front a.back bl);
        gap = omega (arith, end_of-frame 2 a.front sf, a.gap);
        pos = omega (arith, size);
        marked = ground arith;
        after = rw size (
            Blocks-frame (base + n) a.back sb (
              raise m.pages _ (base + n) a.back (Blocks-right m.pages 2 a.front a.back bl) beyond));
        counted = omega (
          arith,
          size,
          total-frame a.front sf,
          total-frame a.back sb,
          ap (total m.pages) a.whole ∙ total-append m.pages a.front a.back,
          is.counted,
        );
        few = omega arith;
        covers = λ q.
            rw (size, in_blocks-frame a.front q sf, in_blocks-frame a.back q sb)
              (ground (
                arith,
                ap (λ ys. in_blocks m.pages ys q) a.whole
                    ∙ in_blocks-append m.pages a.front a.back q,
              ));
      }
    where
      beyond : (q : Ptr) → has q a.back ≡ true → base + n ≤ q
      beyond q i = ground (
        arith,
        a.higher q,
        a.whole,
        has-append q a.front a.back,
        has-in_blocks m.pages 2 xs q is.blocks,
        u.not_free q,
      )

-- From a sound free list, n > 0 pages from base on that are in use are freed, if the list is empty
-- or has a block above base and the pages stay fewer than 2 ^ 32: default_free_pages returns, the
-- list is sound again, sorted, with its blocks merged where they touch, and the free pages are
-- those that were free and the n pages.
pub default_free_pages-IsFree :
    (m : FreeArea) (xs : List Ptr) (base n : ℕ)
    → IsFree m xs
    → 0 < n
    → InUse m.pages xs base n
    → m.nr_free + n < 2 ^ 32
    → HasRoom xs base
    → Ends (default_free_pages base n m) λ m'. Freed m xs base n m'
default_free_pages-IsFree m xs base n is pos u few room =
    let a =
      around m.pages 2 xs base is.blocks (omega (arith, u.above))
        (u.not_free base (ground arith)) in
    let (g, clear, same) =
      clear_pages_runs n base m.pages (λ q i. (u.not_reserved q i, u.unmarked q i)) in
    let (links, put, ring) =
      insert_block-Ring ((m.nr_free + n) % 2 ^ 32 + 2) a.front a.back base m.page_links
        (subst (λ ys. Ring m.page_links free_list ys) a.whole is.ring) a.below a.higher
        (omega (arith, u.above)) (subst (λ ys. HasRoom ys base) a.whole room) (short a) in
    let placed = freed-Placed m xs base n is pos u few a g links same ring in
    let before = merge_prev-Placed (marked m base n g links) a.front base a.back _ placed in
    let merged = merge_prev base (marked m base n g links) in
    let settled = merge_next-Settled merged.1 before.rest merged.0 a.back _ before.placed in
    (
      merge_next merged.0 merged.1,
      free_runs m base n g links pos clear put,
      record {
        rest = settled.rest;
        free = settled.free;
        more = settled.nr_same ∙ before.nr_same ∙ omega arith;
        covers = settled.covers;
      },
    )
  where
    short : (a : Around m.pages 2 xs base) → length a.front < (m.nr_free + n) % 2 ^ 32 + 2
    short a = omega (
      arith,
      length_le_total m.pages 2 xs is.blocks,
      is.counted,
      ap length a.whole ∙ length-append a.front a.back,
    )
