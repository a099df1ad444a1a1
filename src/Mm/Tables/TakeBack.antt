-- ===== src/Mm/Tables/TakeBack.antt =====
-- kern/mm/default_pmm.c as the manager that the page tables give their pages back to.
use os_lab.Base.{
  update, leb, ◌%◌, Ptr, ℕ, suc, ◌+◌, ◌-◌, ◌^◌, ◌<◌, ◌≤◌, ◌≡◌, ◌≢◌, ◌==◌, Bool, Bool-cases, true,
  false, inl, inr, if◌then◌else◌, refl, sym, ◌∙◌, arith, ap, List, [], ◌∷◌, has, Option, some, none,
  ◌>>=◌,
}
use os_lab.Libs.Links.{Links}
use os_lab.Mm.FirstFit.Defs.{
  Page, FreeArea, free_list, clear_pages, insert_block, merge_prev, merge_next, default_free_pages,
}
use os_lab.Mm.FirstFit.Blocks.{in_range, in_blocks, Blocks, total}
use os_lab.Mm.FirstFit.Free.{InUse, HasRoom}
use os_lab.Mm.FirstFit.Release.{Freed, marked, default_free_pages-IsFree}
use os_lab.Mm.Tables.Manager.{Room, Takes, with_page}
use os_lab.Mm.Tables.FirstFit.{default_pmm_manager, FreePages, block-in_blocks, one_page}

-- From m to m' the counts and the reserved pages stay, and no page is marked anew.
record Keeps (m m' : FreeArea) : Type 0 where
  refs : (q : Ptr) → (m'.pages q).ref ≡ (m.pages q).ref
  reserves : (q : Ptr) → (m'.pages q).reserved ≡ (m.pages q).reserved
  marks : (q : Ptr) → (m.pages q).is_head ≡ false → (m'.pages q).is_head ≡ false

merge_prev-Keeps : (base : Ptr) (m : FreeArea) → Keeps m (merge_prev base m).1
unfolding merge_prev
merge_prev-Keeps base m = record {
  refs = λ q. ground arith;
  reserves = λ q. ground arith;
  marks = λ q h. ground (arith, h);
}

merge_next-Keeps : (base : Ptr) (m : FreeArea) → Keeps m (merge_next base m)
unfolding merge_next
merge_next-Keeps base m = record {
  refs = λ q. ground arith;
  reserves = λ q. ground arith;
  marks = λ q h. ground (arith, h);
}

-- The descriptor of the page that is given back, cleared.
abbrev cleared : Ptr → (Ptr → Page) → Ptr → Page
cleared p f = update f p (record (f p) { ref = 0; reserved = false; is_head = false })

put_is :
    (o : Option Links) (p : Ptr) (a a' : FreeArea)
    → (o >>= λ links. some (
        merge_next
          (merge_prev p (marked a p 1 (cleared p a.pages) links)).0
          (merge_prev p (marked a p 1 (cleared p a.pages) links)).1))
      ≡ some a'
    → (links : Links) × (a'
        ≡ merge_next
            (merge_prev p (marked a p 1 (cleared p a.pages) links)).0
            (merge_prev p (marked a p 1 (cleared p a.pages) links)).1)
put_is none p a a' e = absurd (cc)
put_is (some links) p a a' e = (links, cc)

free_is :
    (p : Ptr) (a a' : FreeArea)
    → (a.pages p).reserved ≡ false
    → (a.pages p).is_head ≡ false
    → default_free_pages p 1 a ≡ some a'
    → (links : Links) × (a'
        ≡ merge_next
            (merge_prev p (marked a p 1 (cleared p a.pages) links)).0
            (merge_prev p (marked a p 1 (cleared p a.pages) links)).1)
unfolding default_free_pages clear_pages
free_is p a a' nr nh run =
    put_is (insert_block ((a.nr_free + 1) % 2 ^ 32 + 2) p a.page_links) p a a' (rw (nr, nh) at run)

-- What freeing the page does to the descriptors.
record Returned (p : Ptr) (a a' : FreeArea) : Type 0 where
  refs : (q : Ptr) → (a'.pages q).ref ≡ (if q == p then 0 else (a.pages q).ref)
  reserves : (q : Ptr) → (a.pages q).reserved ≡ false → (a'.pages q).reserved ≡ false
  marks : (q : Ptr) → q ≢ p → (a.pages q).is_head ≡ false → (a'.pages q).is_head ≡ false

returned :
    (p : Ptr) (a a' : FreeArea)
    → (a.pages p).reserved ≡ false
    → (a.pages p).is_head ≡ false
    → default_free_pages p 1 a ≡ some a'
    → Returned p a a'
returned p a a' nr nh run =
    let (links, e) = free_is p a a' nr nh run in
    let m = marked a p 1 (cleared p a.pages) links in
    let k = merge_prev-Keeps p m in
    let l = merge_next-Keeps (merge_prev p m).0 (merge_prev p m).1 in
    record {
      refs = λ q. rw e (l.refs q ∙ (k.refs q ∙ ground arith));
      reserves = λ q h. rw e (l.reserves q ∙ (k.reserves q ∙ ground (arith, h)));
      marks = λ q ne h. rw e (l.marks q (k.marks q (ground (arith, h, ne))));
    }

-- Blocks of pages below `hi` have fewer pages than that.
total_bound :
    (f : Ptr → Page) (lo hi : ℕ) (xs : List Ptr)
    → Blocks f lo xs
    → lo ≤ suc hi
    → ((q : Ptr) → in_blocks f xs q ≡ true → q < hi)
    → lo + total f xs ≤ suc hi
total_bound f lo hi [] b le h = omega arith
total_bound f lo hi (x ∷ xs) b le h =
    let end = x + (f x).property - 1 in
    let top : end < hi = h end (ground (arith, b.1)) in
    let rest =
      total_bound f (suc (x + (f x).property)) hi xs b.3 (omega (arith, b.1))
        (λ q i. h q (ground arith)) in
    omega (arith, b.0, b.1)

-- The block of a free page.
block_of :
    (f : Ptr → Page) (xs : List Ptr) (q : Ptr)
    → in_blocks f xs q ≡ true
    → (x : Ptr) × (has x xs ≡ true) × (in_range x (f x).property q ≡ true)
block_of f [] q i = absurd (ground arith)
block_of f (x ∷ xs) q i = elim (Bool-cases (in_range x (f x).property q)) [
  | inl r ↦ (x, ground arith, r)
  | inr r ↦ let (y, h, s) = block_of f xs q (ground (arith, i, r)) in (y, ground (arith, h), s)
]

Room-HasRoom :
    (f : Ptr → Page) (xs : List Ptr) (free : Ptr → Bool) (p : Ptr)
    → Blocks f 2 xs
    → ((q : Ptr) → in_blocks f xs q ≡ free q)
    → free p ≡ false
    → Room free p
    → HasRoom xs p
Room-HasRoom f [] free p b c out room = inl refl
Room-HasRoom f (x ∷ xs) free p b c out (inl none_free) =
    absurd (ground (arith, b.1, c x, none_free x))
Room-HasRoom f (x ∷ xs) free p b c out (inr (top, lt, is_free)) =
    let (y, h, r) = block_of f (x ∷ xs) top (c top ∙ is_free) in
    let up : p < y = elim (Bool-cases (leb y p)) [
      | inl le ↦
          let inside : in_range y (f y).property p ≡ true = ground (arith, r, le, lt) in
          absurd (ground (arith, block-in_blocks f (x ∷ xs) y p h inside, c p, out))
      | inr gt ↦ ground (arith, gt)
    ] in
    inr (y, h, up)

-- One page comes back.
took :
    (kernel : Ptr → Bool) (a : FreeArea) (free : Ptr → Bool) (s : FreePages kernel a free) (p : Ptr)
    (a' : FreeArea)
    → kernel p ≡ false
    → p < 2 ^ 31
    → Freed a s.blocks p 1 a'
    → Returned p a a'
    → FreePages kernel a' (with_page free p)
took kernel a free s p a' nk lt freed back = record {
  blocks = freed.rest;
  sound = freed.free;
  covers = λ q. freed.covers q ∙ ground (arith, s.covers q, one_page p q);
  below =
      λ q f. elim (Bool-cases (q == p)) [ inl e ↦ ground arith | inr e ↦ s.below q (rw e at f) ];
  kernel_used = λ q k. elim (Bool-cases (q == p)) [
    | inl e ↦ let same : q ≡ p = ground arith in absurd (ground (arith, nk, k, ap kernel same))
    | inr e ↦ rw e (s.kernel_used q k)
  ];
  kernel_head = s.kernel_head;
  not_reserved = λ q k. back.reserves q (s.not_reserved q k);
  unmarked = λ q k u.
      let ne : q ≢ p = ground arith in back.marks q ne (s.unmarked q k (ground (arith, u)));
}

-- Where the free pages are those of the blocks of its sound free list, below page 2 ^ 31, the
-- descriptor at the address of the list's head and any others may be the kernel's for good, and no
-- other page is reserved or, in use, the head of a block, the first-fit allocator takes single
-- pages back as the page tables rely on it: a page in use that is not NULL and not the kernel's
-- for good, below page 2 ^ 31, while no page is free or one above it is, is taken back; then it is
-- free and counts no use, every other page stays free or in use and keeps its count, and the state
-- is again one of these.
pub default_pmm_manager-Takes :
    (kernel : Ptr → Bool) → Takes default_pmm_manager (FreePages kernel) kernel
default_pmm_manager-Takes kernel = record {
  kernel_used = λ a free p s k. s.kernel_used p k;
  takes = λ a free p s used ne nk lt room.
      let here : (q : Ptr) → in_range p 1 q ≡ true → q ≡ p = λ q r. ground (arith, one_page p q) in
      let nr = s.not_reserved p nk in
      let nh = s.unmarked p nk used in
      let not_list : p ≢ free_list = λ e. absurd (ground (arith, nk, s.kernel_head, ap kernel e)) in
      let in_use : InUse a.pages s.blocks p 1 = record {
        above = omega (arith, ne, not_list);
        not_free = λ q r. rw (here q r) (s.covers p ∙ used);
        not_reserved = λ q r. rw (here q r) nr;
        unmarked = λ q r. rw (here q r) nh;
      } in
      let few : a.nr_free + 1 < 2 ^ 32 = omega (
        arith,
        s.sound.counted,
        total_bound a.pages 2 (2 ^ 31) s.blocks s.sound.blocks (omega arith)
            (λ q i. s.below q (sym (s.covers q) ∙ i)),
      ) in
      let (a', run, freed) =
        default_free_pages-IsFree a s.blocks p 1 s.sound (omega arith) in_use few
          (Room-HasRoom a.pages s.blocks free p s.sound.blocks s.covers used room) in
      let back = returned p a a' nr nh run in
      (a', run, (took kernel a free s p a' nk lt freed back, back.refs));
}
