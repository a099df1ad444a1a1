-- ===== src/Mm/FirstFit/Take.antt =====
-- `take_pages`: what happens to the block that `default_alloc_pages` has chosen.
use os_lab.Base.{
  Ptr, ℕ, suc, ◌+◌, ◌-◌, ◌<◌, ◌≤◌, ◌^◌, ◌%◌, ◌≡◌, inl, inr, Bool-cases, true, false, not, ◌&&◌,
  ◌||◌, ltb, List, ◌∷◌, ◌++◌, has, has-append, arith, Distinct-remove, last_or,
}
use os_lab.Libs.Links.{list_prev, list_del, list_add}
use os_lab.Libs.Links.Edit.{list_del-Ring, list_add-Ring_at, prev_of-Ring}
use os_lab.Mm.FirstFit.Defs.{FreeArea, free_list, take_pages, set_head, clear_head}
use os_lab.Mm.FirstFit.Middle.{middle-Blocks, middle-total, middle-in_blocks}
use os_lab.Mm.FirstFit.Blocks.{
  Blocks, end_of, total, in_range, in_blocks, IsFree, SameBlocks, Blocks-frame, total-frame,
  in_blocks-frame, Blocks_weaken, Blocks-left, Blocks-right, Blocks-append, le_end_of, total-append,
  in_blocks-append, Blocks_lower, Blocks_upper, has-in_blocks,
}

-- The n pages from `page` on, which were free, are free no more; the other pages are as they were.
pub record Taken (m : FreeArea) (xs : List Ptr) (page n : ℕ) (m' : FreeArea) : Type 0 where
  pub rest : List Ptr
  pub free : IsFree m' rest
  pub less : m'.nr_free + n ≡ m.nr_free
  pub were_free : (q : Ptr) → in_range page n q ≡ true → in_blocks m.pages xs q ≡ true
  pub covers :
      (q : Ptr) → in_blocks m'.pages rest q ≡ (in_blocks m.pages xs q && not (in_range page n q))
  pub unmarked : (m'.pages page).is_head ≡ false

module _ (m : FreeArea) (front : List Ptr) (x : Ptr) (back : List Ptr) (n : ℕ)
    (is : IsFree m (front ++ x ∷ back)) (pos : 0 < n) (large : n ≤ (m.pages x).property) where
  before : Blocks m.pages 2 front
  before = Blocks-left m.pages 2 front (x ∷ back) is.blocks

  at : Blocks m.pages (end_of m.pages 2 front) (x ∷ back)
  at = Blocks-right m.pages 2 front (x ∷ back) is.blocks

  whole_total :
      total m.pages (front ++ x ∷ back)
      ≡ total m.pages front + ((m.pages x).property + total m.pages back)
  whole_total = total-append m.pages front (x ∷ back)

  whole_blocks :
      (q : Ptr)
      → in_blocks m.pages (front ++ x ∷ back) q ≡ (
          in_blocks m.pages front q
          || (in_range x (m.pages x).property q || in_blocks m.pages back q))
  whole_blocks q = in_blocks-append m.pages front (x ∷ back) q

  front_below : (q : Ptr) → in_blocks m.pages front q ≡ true → suc q < x
  front_below q i = omega (arith, Blocks_upper m.pages 2 front q before i, at.0)

  back_above : (q : Ptr) → in_blocks m.pages back q ≡ true → x + (m.pages x).property < q
  back_above q i =
      omega (arith, Blocks_lower m.pages (suc (x + (m.pages x).property)) back q at.3 i)

  x_out : has x (front ++ back) ≡ false
  x_out = (Distinct-remove front x back is.ring.distinct.1).1

  member_out : (q : Ptr) → x ≤ q → q < x + (m.pages x).property → has q (front ++ back) ≡ false
  member_out q le lt = ground (
    arith,
    has-append q front back,
    has-in_blocks m.pages 2 front q before,
    has-in_blocks m.pages (suc (x + (m.pages x).property)) back q at.3,
    front_below q,
    back_above q,
  )

  x_above : 2 ≤ x
  x_above = omega (arith, le_end_of m.pages 2 front before, at.0)

  take_whole :
      n ≡ (m.pages x).property
      → take_pages x n m ≡ record {
        pages = clear_head x m.pages;
        page_links = list_del x m.page_links;
        nr_free = (m.nr_free + 2 ^ 32 - n) % 2 ^ 32;
      }
  unfolding take_pages
  take_whole e = let t : ltb n (m.pages x).property ≡ false = ground arith in rw t

  take_part :
      n < (m.pages x).property
      → take_pages x n m ≡ record {
        pages = clear_head x (set_head (x + n) ((m.pages x).property - n) m.pages);
        page_links = list_add (last_or free_list front) (x + n) (list_del x m.page_links);
        nr_free = (m.nr_free + 2 ^ 32 - n) % 2 ^ 32;
      }
  unfolding take_pages list_prev
  take_part lt =
      let t : ltb n (m.pages x).property ≡ true = ground arith in
      rw (t, prev_of-Ring front x back is.ring)

  same_whole : SameBlocks m.pages (clear_head x m.pages) (front ++ back)
  same_whole = record {
    property_same = λ q i. ground arith;
    head_same = λ q i. ground (arith, x_out);
  }

  Taken-whole : n ≡ (m.pages x).property → Taken m (front ++ x ∷ back) x n (take_pages x n m)
  Taken-whole e = rw (take_whole e) (record {
    rest = front ++ back;
    free = record {
      ring = list_del-Ring front x back is.ring;
      blocks = Blocks-frame 2 (front ++ back) same_whole (
          Blocks-append m.pages 2 front back before (
            Blocks_weaken m.pages (suc (x + (m.pages x).property)) (end_of m.pages 2 front) back
              (omega (arith, at.0)) at.3));
      counted = omega (
        arith,
        total-frame (front ++ back) same_whole,
        total-append m.pages front back,
        whole_total,
        is.counted,
        is.few,
      );
      few = omega arith;
    };
    less = omega (arith, is.counted, is.few, whole_total);
    were_free = λ q i. ground (arith, whole_blocks q);
    covers = λ q. ground (
      arith,
      in_blocks-frame (front ++ back) q same_whole,
      in_blocks-append m.pages front back q,
      whole_blocks q,
      front_below q,
      back_above q,
    );
    unmarked = ground arith;
  })

  same_part :
      n < (m.pages x).property
      → SameBlocks m.pages
          (clear_head x (set_head (x + n) ((m.pages x).property - n) m.pages))
          (front ++ back)
  same_part lt = record {
    property_same = λ q i. ground (arith, member_out (x + n));
    head_same = λ q i. ground (arith, x_out, member_out (x + n));
  }

  Taken-part : n < (m.pages x).property → Taken m (front ++ x ∷ back) x n (take_pages x n m)
  Taken-part lt =
      let g = clear_head x (set_head (x + n) ((m.pages x).property - n) m.pages) in
      let e : (g (x + n)).property ≡ (m.pages x).property - n = ground arith in
      let s = same_part lt in
      rw (take_part lt) (record {
        rest = front ++ (x + n) ∷ back;
        free = record {
          ring =
              list_add-Ring_at front (x + n) back (list_del-Ring front x back is.ring)
                (ground (arith, member_out (x + n), x_above));
          blocks =
              middle-Blocks front back s 2 (x + n) ((m.pages x).property - n) e (ground arith)
                (omega arith) before (omega (arith, at.0))
                (Blocks_weaken m.pages (suc (x + (m.pages x).property)) _ back (omega arith) at.3);
          counted = omega (
            arith,
            middle-total front back s (x + n) ((m.pages x).property - n) e,
            whole_total,
            is.counted,
            is.few,
          );
          few = omega arith;
        };
        less = omega (arith, is.counted, is.few, whole_total);
        were_free = λ q i. ground (arith, whole_blocks q);
        covers = λ q. ground (
          arith,
          middle-in_blocks front back s (x + n) ((m.pages x).property - n) q e,
          whole_blocks q,
          front_below q,
          back_above q,
        );
        unmarked = ground arith;
      })

  pub take_pages-Taken : Taken m (front ++ x ∷ back) x n (take_pages x n m)
  take_pages-Taken = elim (Bool-cases (ltb n (m.pages x).property)) [
    | inl lt ↦ Taken-part (ground arith)
    | inr ge ↦ Taken-whole (ground (arith, large))
  ]
