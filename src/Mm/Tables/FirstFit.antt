-- ===== src/Mm/Tables/FirstFit.antt =====
-- kern/mm/default_pmm.c as the manager that the page tables take their pages from.
use os_lab.Base.{
  ◌≢◌, ◌<◌, ◌≤◌, ◌^◌, false, ==_ne, has, has-append, [], ◌∷◌, Ptr, null, ℕ, ◌+◌, ◌≡◌, ◌⊎◌, ◌==◌,
  Bool, Bool-cases, true, ltb, inl, inr, if◌then◌else◌, refl, sym, ◌∙◌, arith, List, Option, some,
  none, ◌>>=◌,
}
use os_lab.Mm.FirstFit.Defs.{
  Page, FreeArea, take_pages, default_alloc_pages, default_free_pages, first_fit, free_list,
}
use os_lab.Mm.FirstFit.Blocks.{
  Blocks, in_range, in_blocks, IsFree, SameBlocks, Blocks-frame, total-frame, in_blocks-frame,
  Blocks_lower,
}
use os_lab.Mm.FirstFit.Alloc.{AllSmall, Answer, default_alloc_pages-IsFree}
use os_lab.Mm.Tables.Defs.{PmmManager}
use os_lab.Mm.Tables.Manager.{with_ref, Given, Gives}

abbrev pub default_pmm_manager : PmmManager
default_pmm_manager = record { alloc_pages = default_alloc_pages; free_pages = default_free_pages }

-- The free list is sound, and its blocks are made of the pages of `free`, which are below 2 ^ 31; no
-- page but the kernel's is reserved, and of those in use none is marked as the head of a block. The
-- descriptor at the address of the list's head is the kernel's.
pub record FreePages (kernel : Ptr → Bool) (a : FreeArea) (free : Ptr → Bool) : Type 0 where
  pub blocks : List Ptr
  pub sound : IsFree a blocks
  pub covers : (q : Ptr) → in_blocks a.pages blocks q ≡ free q
  pub below : (q : Ptr) → free q ≡ true → q < 2 ^ 31
  pub kernel_used : (q : Ptr) → kernel q ≡ true → free q ≡ false
  pub kernel_head : kernel free_list ≡ true
  pub not_reserved : (q : Ptr) → kernel q ≡ false → (a.pages q).reserved ≡ false
  pub unmarked : (q : Ptr) → kernel q ≡ false → free q ≡ false → (a.pages q).is_head ≡ false

-- What is handed out is what the block search finds.
answer_is :
    (o : Option Ptr) (a : FreeArea) (x : Ptr × FreeArea)
    → (o >>= λ page. some (page, if page == null then a else take_pages page 1 a)) ≡ some x
    → x.1 ≡ (if x.0 == null then a else take_pages x.0 1 a)
answer_is none a x e = absurd (cc)
answer_is (some p) a x e =
    let same : (p, if p == null then a else take_pages p 1 a) ≡ x = cc in rw (sym same) refl

alloc_is :
    (a : FreeArea) (x : Ptr × FreeArea)
    → default_alloc_pages 1 a ≡ some x
    → x.1 ≡ (if x.0 == null then a else take_pages x.0 1 a)
unfolding default_alloc_pages
alloc_is a x run =
    answer_is (if ltb a.nr_free 1 then some null else first_fit (a.nr_free + 2) free_list 1 a) a x
      run

taken_page :
    (p q : Ptr) (a : FreeArea)
    → (((take_pages p 1 a).pages q).ref ≡ (a.pages q).ref)
      × (((take_pages p 1 a).pages q).reserved ≡ (a.pages q).reserved)
      × (q ≢ p
          → (q ≡ p + 1 → (a.pages p).property ≤ 1)
          → ((take_pages p 1 a).pages q).is_head ≡ (a.pages q).is_head)
unfolding take_pages
taken_page p q a = (ground arith, ground arith, λ ne out. ground (arith, out))

-- Counting the uses of a page leaves the free list alone.
with_ref-SameBlocks :
    (a : FreeArea) (p n : ℕ) (xs : List Ptr) → SameBlocks a.pages (with_ref p n a).pages xs
with_ref-SameBlocks a p n xs = record {
  property_same = λ q i. ground arith;
  head_same = λ q i. ground arith;
}

with_ref-FreePages :
    (kernel : Ptr → Bool) (a : FreeArea) (free : Ptr → Bool) (p n : ℕ)
    → FreePages kernel a free
    → FreePages kernel (with_ref p n a) free
with_ref-FreePages kernel a free p n s =
    let same = with_ref-SameBlocks a p n s.blocks in
    record {
      blocks = s.blocks;
      sound = record {
        ring = s.sound.ring;
        blocks = Blocks-frame 2 s.blocks same s.sound.blocks;
        counted = s.sound.counted ∙ sym (total-frame s.blocks same);
        few = s.sound.few;
      };
      covers = λ q. in_blocks-frame s.blocks q same ∙ s.covers q;
      below = s.below;
      kernel_used = s.kernel_used;
      kernel_head = s.kernel_head;
      not_reserved = λ q k. ground (arith, s.not_reserved q k);
      unmarked = λ q k u. ground (arith, s.unmarked q k u);
    }

pub one_page : (p q : Ptr) → in_range p 1 q ≡ (q == p)
one_page p q = ground arith

-- A page of a block.
pub block-in_blocks :
    (f : Ptr → Page) (xs : List Ptr) (x q : Ptr)
    → has x xs ≡ true
    → in_range x (f x).property q ≡ true
    → in_blocks f xs q ≡ true
block-in_blocks f [] x q i r = ground arith
block-in_blocks f (y ∷ ys) x q i r = elim (Bool-cases (x == y)) [
  | inl e ↦ let same : x ≡ y = ground arith in rw (sym same, r) refl
  | inr e ↦ ground (arith, block-in_blocks f ys x q (ground (arith, i, e)) r)
]

-- If no page is free, there is no block.
none_free :
    (f : Ptr → Page) (lo : ℕ) (xs : List Ptr)
    → Blocks f lo xs
    → AllSmall f 1 xs
    → (q : Ptr) → in_blocks f xs q ≡ false
none_free f lo [] b small q = refl
none_free f lo (x ∷ xs) b small q = absurd (omega (arith, b.1, small.0))

given :
    (kernel : Ptr → Bool) (a : FreeArea) (free : Ptr → Bool) (s : FreePages kernel a free) (p : Ptr)
    (a' : FreeArea)
    → default_alloc_pages 1 a ≡ some (p, a')
    → Answer a s.blocks 1 p a'
    → ((p ≡ null) × (a' ≡ a) × ((q : Ptr) → free q ≡ false)) ⊎ Given (FreePages kernel) a free p a'
given kernel a free s p a' run (Answer.no_block nil same small) =
    inl (nil, same, λ q. sym (s.covers q) ∙ none_free a.pages 2 s.blocks s.sound.blocks small q)
given kernel a free s p a' run (Answer.block front back whole small taken) =
    let was : in_blocks a.pages s.blocks p ≡ true =
      taken.were_free p (one_page p p ∙ ground arith) in
    let ne : p ≢ null = omega (arith, Blocks_lower a.pages 2 s.blocks p s.sound.blocks was) in
    let now : a' ≡ take_pages p 1 a = alloc_is a (p, a') run ∙ rw (==_ne p null ne) refl in
    let held : has p s.blocks ≡ true = rw whole (ground (arith, has-append p front (p ∷ back))) in
    inr (record {
      ne_null = ne;
      was_free = sym (s.covers p) ∙ was;
      sound = record {
        blocks = taken.rest;
        sound = taken.free;
        covers = λ q. taken.covers q ∙ rw (s.covers q, one_page p q) refl;
        below = λ q f. s.below q (ground arith);
        kernel_used = λ q k. ground (arith, s.kernel_used q k);
        kernel_head = s.kernel_head;
        not_reserved = λ q k. rw now ((taken_page p q a).1 ∙ s.not_reserved q k);
        unmarked = λ q k u. elim (Bool-cases (q == p)) [
          | inl e ↦ let same : q ≡ p = ground arith in rw same (taken.unmarked)
          | inr e ↦
              let out : free q ≡ false = ground (arith, u, e) in
              let inside : q ≡ p + 1 → (a.pages p).property ≤ 1 = λ next.
                ground (arith, next, out, s.covers q, block-in_blocks a.pages s.blocks p q held) in
              rw now ((taken_page p q a).2 (ground (arith, e)) inside ∙ s.unmarked q k out)
        ];
      };
      refs = λ q. rw now ((taken_page p q a).0);
    })

-- The first-fit allocator hands out single pages as the page tables rely on it, where the free
-- pages are those of the blocks of its sound free list, below page 2 ^ 31, the descriptor at the
-- address of the list's head and any others may be the kernel's for good, and no other page is
-- reserved or, in use, the head of a block: it always answers, either NULL with nothing changed,
-- only if no page is free, or a free page that is not NULL, which is free no longer, while every
-- other page stays free or in use and every page keeps its count; and counting the uses of a page
-- leaves its free list sound.
pub default_pmm_manager-Gives : (kernel : Ptr → Bool) → Gives default_pmm_manager (FreePages kernel)
default_pmm_manager-Gives kernel = record {
  gives = λ a free s.
      let ((p, a'), run, answer) = default_alloc_pages-IsFree a s.blocks 1 s.sound (omega arith) in
      ((p, a'), run, given kernel a free s p a' run answer);
  keeps_ref = with_ref-FreePages kernel;
}
