-- ===== src/Mm/FirstFit/Merge.antt =====
-- The end of `default_free_pages`: a block that has just been put in the list is merged with its
-- neighbours.
use os_lab.Base.{
  Ptr, ℕ, suc, ◌+◌, ◌<◌, ◌≤◌, ◌^◌, ◌%◌, ◌≡◌, ◌≢◌, ◌⊎◌, inl, inr, Bool, Bool-cases, true, false,
  ◌||◌, ◌==◌, ==_ne, List, [], ◌∷◌, ◌++◌, has, has-append, append_assoc, refl, arith,
  Distinct-remove, ◌∙◌, ap, last_or-snoc, subst, sym, update,
}
use os_lab.Libs.Links.{list_next, list_prev, list_del}
use os_lab.Libs.Links.Ring.{Ring}
use os_lab.Libs.Links.Edit.{list_del-Ring, prev_of-Ring, next_of-Ring}
use os_lab.Mm.FirstFit.Defs.{FreeArea, free_list, merge_prev, merge_next, clear_head}
use os_lab.Mm.FirstFit.Blocks.{
  le_end_of, end_of-append, in_blocks-frame, total-frame, end_of-frame, Blocks-frame, Blocks,
  end_of, total, in_range, in_blocks, IsFree, SameBlocks, Blocks_weaken, Blocks-left, Blocks-right,
  Blocks-append, total-append, in_blocks-append,
}
use os_lab.Mm.FirstFit.Middle.{same_back, same_front}

-- The block `b` lies between `front` and `back`; it may begin where `front` ends, if `slack` is 1,
-- and end where `back` begins. `covered` tells which pages are free.
pub record Placed (m : FreeArea) (front : List Ptr) (b : ℕ) (back : List Ptr) (slack : ℕ)
    (covered : ℕ → Bool) : Type 0 where
  pub ring : Ring m.page_links free_list (front ++ b ∷ back)
  pub above : 2 ≤ b
  pub before : Blocks m.pages 2 front
  pub gap : end_of m.pages 2 front ≤ b + slack
  pub pos : 0 < (m.pages b).property
  pub marked : (m.pages b).is_head ≡ true
  pub after : Blocks m.pages (b + (m.pages b).property) back
  pub counted : m.nr_free ≡ total m.pages front + ((m.pages b).property + total m.pages back)
  pub few : m.nr_free < 2 ^ 32
  pub covers :
      (q : ℕ)
      → (in_blocks m.pages front q
          || (in_range b (m.pages b).property q || in_blocks m.pages back q))
        ≡ covered q

-- `b` takes in the block `y` that begins where it ends.
abbrev absorbed : ℕ → ℕ → FreeArea → FreeArea
absorbed b y m = record m {
  pages = clear_head y (
      update m.pages b
        (record (m.pages b) { property = ((m.pages b).property + (m.pages y).property) % 2 ^ 32 }));
  page_links = list_del y m.page_links;
}

snoc_view : (xs : List Ptr) → (xs ≡ []) ⊎ ((ys : List Ptr) × (y : Ptr) × (xs ≡ ys ++ y ∷ []))
snoc_view [] = inl refl
snoc_view (x ∷ xs) = elim (snoc_view xs) [
  | inl e ↦ inr ([], x, ap (◌∷◌ x) e)
  | inr s ↦ inr (x ∷ s.0, s.1, ap (◌∷◌ x) s.2)
]

module _ (m : FreeArea) (front : List Ptr) (b y : ℕ) (back : List Ptr)
    (ring : Ring m.page_links free_list (front ++ b ∷ y ∷ back)) where
  absorbed-Ring : Ring (absorbed b y m).page_links free_list (front ++ b ∷ back)
  absorbed-Ring =
      subst (λ xs. Ring (list_del y m.page_links) free_list xs) (append_assoc front (b ∷ []) back)
        (list_del-Ring (front ++ b ∷ []) y back (
          subst (λ xs. Ring m.page_links free_list xs)
            (sym (append_assoc front (b ∷ []) (y ∷ back))) ring))

  absorbed_out : (has b (front ++ back) ≡ false) × (has y (front ++ back) ≡ false) × (b ≢ y)
  absorbed_out =
      let out = (Distinct-remove front b (y ∷ back) ring.distinct.1).1 in
      let rest = (Distinct-remove front b (y ∷ back) ring.distinct.1).0 in
      let out' = (Distinct-remove front y back rest).1 in
      (
        ground (arith, out, has-append b front (y ∷ back), has-append b front back),
        out',
        ground (arith, out, has-append b front (y ∷ back)),
      )

  absorbed-SameBlocks : SameBlocks m.pages (absorbed b y m).pages (front ++ back)
  absorbed-SameBlocks = record {
    property_same = λ q i. ground (arith, absorbed_out.0);
    head_same = λ q i. ground (arith, absorbed_out.0, absorbed_out.1);
  }

-- Two blocks that touch, made one.
module _ (m : FreeArea) (front : List Ptr) (b y : ℕ) (back : List Ptr) (covered : ℕ → Bool)
    (ring : Ring m.page_links free_list (front ++ b ∷ y ∷ back)) where
  absorbed-Placed :
      b + (m.pages b).property ≡ y
      → 2 ≤ b
      → Blocks m.pages 2 front
      → end_of m.pages 2 front ≤ b
      → 0 < (m.pages b).property
      → (m.pages b).is_head ≡ true
      → Blocks m.pages (y + (m.pages y).property) back
      → m.nr_free
        ≡ total m.pages front + ((m.pages b).property + ((m.pages y).property + total m.pages back))
      → m.nr_free < 2 ^ 32
      → ((q : ℕ)
          → (in_blocks m.pages front q
              || (in_range b (m.pages b).property q
                  || (in_range y (m.pages y).property q || in_blocks m.pages back q)))
            ≡ covered q)
      → Placed (absorbed b y m) front b back 0 covered
  absorbed-Placed touch above before gap pos marked after counted few covers =
      let s = absorbed-SameBlocks m front b y back ring in
      let sf = same_front front back s in
      let sb = same_back front back s in
      let out = absorbed_out m front b y back ring in
      let size : ((absorbed b y m).pages b).property ≡ (m.pages b).property + (m.pages y).property =
        ground (arith, out.2, counted, few) in
      record {
        ring = absorbed-Ring m front b y back ring;
        above = above;
        before = Blocks-frame 2 front sf before;
        gap = omega (arith, end_of-frame 2 front sf, gap);
        pos = omega (arith, size, pos);
        marked = ground (arith, out.2, marked);
        after = Blocks-frame _ back sb (
            Blocks_weaken m.pages (y + (m.pages y).property) _ back (omega (arith, size, touch))
              after);
        counted = omega (arith, counted, total-frame front sf, total-frame back sb, size);
        few = few;
        covers = λ q.
            ground (arith, in_blocks-frame front q sf, in_blocks-frame back q sb, size, covers q);
      }

absorbed-after :
    (m : FreeArea) (front : List Ptr) (b y : ℕ) (back : List Ptr)
    → Ring m.page_links free_list (front ++ b ∷ y ∷ back)
    → b + (m.pages b).property ≡ y
    → (m.pages b).property + (m.pages y).property < 2 ^ 32
    → Blocks m.pages (suc (y + (m.pages y).property)) back
    → Blocks (absorbed b y m).pages (suc (b + ((absorbed b y m).pages b).property)) back
absorbed-after m front b y back ring touch few after =
    let out = absorbed_out m front b y back ring in
    let size : ((absorbed b y m).pages b).property ≡ (m.pages b).property + (m.pages y).property =
      ground (arith, out.2) in
    Blocks-frame _ back (same_back front back (absorbed-SameBlocks m front b y back ring))
      (Blocks_weaken m.pages (suc (y + (m.pages y).property)) _ back (omega (arith, size)) after)

-- After `merge_prev` a page at least lies before the block.
pub record Before (nr : ℕ) (back : List Ptr) (covered : ℕ → Bool) (r : Ptr × FreeArea)
    : Type 0 where
  pub rest : List Ptr
  pub placed : Placed r.1 rest r.0 back 0 covered
  pub nr_same : r.1.nr_free ≡ nr

tight :
    {m : FreeArea} {front : List Ptr} {b : ℕ} {back : List Ptr} {covered : ℕ → Bool}
    → Placed m front b back 1 covered
    → end_of m.pages 2 front ≤ b
    → Placed m front b back 0 covered
tight p le = record {
  ring = p.ring;
  above = p.above;
  before = p.before;
  gap = omega arith;
  pos = p.pos;
  marked = p.marked;
  after = p.after;
  counted = p.counted;
  few = p.few;
  covers = p.covers;
}

merge_prev_first :
    (m : FreeArea) (b : ℕ) (back : List Ptr) (covered : ℕ → Bool)
    → Placed m [] b back 1 covered
    → Before m.nr_free back covered (merge_prev b m)
unfolding merge_prev list_prev
merge_prev_first m b back covered p =
    rw (prev_of-Ring [] b back p.ring)
      (record { rest = []; placed = tight p (omega (arith, p.above)); nr_same = refl })

merge_prev_later :
    (m : FreeArea) (front : List Ptr) (x b : ℕ) (back : List Ptr) (covered : ℕ → Bool)
    → Placed m (front ++ x ∷ []) b back 1 covered
    → Before m.nr_free back covered (merge_prev b m)
unfolding merge_prev list_prev
merge_prev_later m front x b back covered p = elim (Bool-cases (x + (m.pages x).property == b)) [
  | inl e ↦
      rw (prev, ==_ne x free_list (omega (arith, above)), e)
        (record {
          rest = front;
          placed =
              absorbed-Placed m front x b back covered ring (ground arith) above bf at.0 at.1 at.2
                p.after (omega (arith, p.counted, total-append m.pages front (x ∷ []))) p.few
                (λ q. ground (arith, p.covers q, in_blocks-append m.pages front (x ∷ []) q));
          nr_same = refl;
        })
  | inr ne ↦
      rw (prev, ==_ne x free_list (omega (arith, above)), ne)
        (record {
          rest = front ++ x ∷ [];
          placed = tight p (ground (arith, p.gap, ends));
          nr_same = refl;
        })
]
  where
    prev : m.page_links.prev b ≡ x
    prev = prev_of-Ring (front ++ x ∷ []) b back p.ring ∙ last_or-snoc free_list front x

    ring : Ring m.page_links free_list (front ++ x ∷ b ∷ back)
    ring =
        subst (λ xs. Ring m.page_links free_list xs) (append_assoc front (x ∷ []) (b ∷ back)) p.ring

    bf : Blocks m.pages 2 front
    bf = Blocks-left m.pages 2 front (x ∷ []) p.before

    at : Blocks m.pages (end_of m.pages 2 front) (x ∷ [])
    at = Blocks-right m.pages 2 front (x ∷ []) p.before

    ends : end_of m.pages 2 (front ++ x ∷ []) ≡ suc (x + (m.pages x).property)
    ends = end_of-append m.pages 2 front (x ∷ [])

    above : 2 ≤ x
    above = omega (arith, le_end_of m.pages 2 front bf, at.0)

pub merge_prev-Placed :
    (m : FreeArea) (front : List Ptr) (b : ℕ) (back : List Ptr) (covered : ℕ → Bool)
    → Placed m front b back 1 covered
    → Before m.nr_free back covered (merge_prev b m)
merge_prev-Placed m front b back covered p = elim (snoc_view front) [
  | inl e ↦ merge_prev_first m b back covered (subst (λ xs. Placed m xs b back 1 covered) e p)
  | inr s ↦
      merge_prev_later m s.0 s.1 b back covered (subst (λ xs. Placed m xs b back 1 covered) s.2 p)
]

-- The list after both merges.
pub record Settled (nr : ℕ) (covered : ℕ → Bool) (m : FreeArea) : Type 0 where
  pub rest : List Ptr
  pub free : IsFree m rest
  pub nr_same : m.nr_free ≡ nr
  pub covers : (q : ℕ) → in_blocks m.pages rest q ≡ covered q

-- A block with a page at least on both sides.
apart :
    (m : FreeArea) (front : List Ptr) (b : ℕ) (back : List Ptr) (covered : ℕ → Bool)
    → Placed m front b back 0 covered
    → Blocks m.pages (suc (b + (m.pages b).property)) back
    → Settled m.nr_free covered m
apart m front b back covered p after = record {
  rest = front ++ b ∷ back;
  free = record {
    ring = p.ring;
    blocks =
        Blocks-append m.pages 2 front (b ∷ back) p.before
          (omega (arith, p.gap), p.pos, p.marked, after);
    counted = p.counted ∙ sym (total-append m.pages front (b ∷ back));
    few = p.few;
  };
  nr_same = refl;
  covers = λ q. in_blocks-append m.pages front (b ∷ back) q ∙ p.covers q;
}

pub merge_next-Settled :
    (m : FreeArea) (front : List Ptr) (b : ℕ) (back : List Ptr) (covered : ℕ → Bool)
    → Placed m front b back 0 covered
    → Settled m.nr_free covered (merge_next b m)
unfolding merge_next list_next
merge_next-Settled m front b [] covered p =
    rw (next_of-Ring front b [] p.ring) (apart m front b [] covered p tt)
merge_next-Settled m front b (y ∷ back) covered p =
    elim (Bool-cases (b + (m.pages b).property == y)) [
      | inl e ↦
          let q =
            absorbed-Placed m front b y back covered p.ring (ground arith) p.above p.before
              (omega (arith, p.gap)) p.pos p.marked
              (Blocks_weaken m.pages (suc (y + (m.pages y).property)) _ back (omega arith)
                p.after.3)
              p.counted p.few p.covers in
          rw
            (
              next_of-Ring front b (y ∷ back) p.ring,
              ==_ne y free_list (omega (arith, p.above, p.after.0)),
              e,
            )
            (apart (absorbed b y m) front b back covered q (
              absorbed-after m front b y back p.ring (ground arith)
                (omega (arith, p.counted, p.few)) p.after.3))
      | inr ne ↦
          rw
            (
              next_of-Ring front b (y ∷ back) p.ring,
              ==_ne y free_list (omega (arith, p.above, p.after.0)),
              ne,
            )
            (apart m front b (y ∷ back) covered p (ground (arith, p.after)))
    ]
