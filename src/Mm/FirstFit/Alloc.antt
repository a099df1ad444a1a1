-- ===== src/Mm/FirstFit/Alloc.antt =====
-- `default_alloc_pages`: the first block that is large enough gives its first pages.
use os_lab.Base.{
  Ptr, null, ℕ, suc, ◌+◌, ◌<◌, ◌≤◌, ◌≡◌, ◌⊎◌, inl, inr, Bool-cases, true, false, ◌==◌, ==_ne, ltb,
  List, [], ◌∷◌, ◌++◌, has, has-append, refl, arith, if◌then◌else◌, length, some, Ends, ap, subst,
  sym,
}
use os_lab.Libs.Links.{Links, list_next}
use os_lab.Libs.Links.Ring.{Chain}
use os_lab.Mm.FirstFit.Defs.{Page, FreeArea, free_list, first_fit, take_pages, default_alloc_pages}
use os_lab.Mm.FirstFit.Take.{Taken, take_pages-Taken}
use os_lab.Mm.FirstFit.Blocks.{length_le_total, total, IsFree, Blocks_lower, has-in_blocks}

-- The first block that is large enough, or NULL.
abbrev pub first_of : (Ptr → Page) → ℕ → List Ptr → Ptr
first_of pages n [] = null
first_of pages n (x ∷ xs) = if ltb (pages x).property n then first_of pages n xs else x

abbrev pub AllSmall : (Ptr → Page) → ℕ → List Ptr → Type 0
AllSmall pages n [] = Unit {0}
AllSmall pages n (x ∷ xs) = ((pages x).property < n) × AllSmall pages n xs

-- From `a` the links lead forward through `xs` to `b`.
abbrev pub Forward : Links → Ptr → List Ptr → Ptr → Type 0
Forward l a [] b = l.next a ≡ b
Forward l a (x ∷ xs) b = (l.next a ≡ x) × Forward l x xs b

pub Forward-Chain :
    (l : Links) (a : Ptr) (xs : List Ptr) (b : Ptr) → Chain l a xs b → Forward l a xs b
Forward-Chain l a [] b c = c.0
Forward-Chain l a (x ∷ xs) b c = (c.0, Forward-Chain l x xs b c.2)

pub first_fit-Forward :
    (f : ℕ) (a : Ptr) (xs : List Ptr) (n : ℕ) (m : FreeArea)
    → Forward m.page_links a xs free_list
    → has free_list xs ≡ false
    → length xs < f
    → first_fit f a n m ≡ some (first_of m.pages n xs)
unfolding first_fit list_next
first_fit-Forward Prim.Native.Nat.zero a xs n m c o lt = absurd (omega arith)
first_fit-Forward (suc f) a [] n m c o lt = rw (c)
first_fit-Forward (suc f) a (x ∷ xs) n m c o lt =
    let rest = first_fit-Forward f x xs n m c.1 (ground arith) (omega arith) in
    rw (c.0, ==_ne x free_list (ground arith), rest) (ground arith)

small_total : (f : Ptr → Page) (n : ℕ) (xs : List Ptr) → total f xs < n → AllSmall f n xs
small_total f n [] lt = tt
small_total f n (x ∷ xs) lt = (omega arith, small_total f n xs (omega arith))

-- Either no block is large enough, or the first that is stands between two parts of the list.
record Split (f : Ptr → Page) (n : ℕ) (xs : List Ptr) : Type 0 where
  page : Ptr
  front : List Ptr
  back : List Ptr
  whole : xs ≡ front ++ page ∷ back
  first : first_of f n xs ≡ page
  small : AllSmall f n front
  large : n ≤ (f page).property

Split-first :
    (f : Ptr → Page) (n : ℕ) (xs : List Ptr)
    → ((first_of f n xs ≡ null) × AllSmall f n xs) ⊎ Split f n xs
Split-first f n [] = inl (refl, tt)
Split-first f n (x ∷ xs) = elim (Bool-cases (ltb (f x).property n)) [
  | inl e ↦ elim (Split-first f n xs) [
    | inl h ↦ inl (rw e (h.0), (ground arith, h.1))
    | inr s ↦ inr (record {
      page = s.page;
      front = x ∷ s.front;
      back = s.back;
      whole = ap (◌∷◌ x) s.whole;
      first = rw e (s.first);
      small = (ground arith, s.small);
      large = s.large;
    })
  ]
  | inr e ↦ inr (record {
    page = x;
    front = [];
    back = xs;
    whole = refl;
    first = rw e;
    small = tt;
    large = ground arith;
  })
]

-- What `default_alloc_pages` answers: a block, or NULL.
pub data Answer (m : FreeArea) (xs : List Ptr) (n : ℕ) (page : Ptr) (m' : FreeArea) : Type 0 where
  no_block : page ≡ null → m' ≡ m → AllSmall m.pages n xs → Answer m xs n page m'
  block :
      (front back : List Ptr)
      → xs ≡ front ++ page ∷ back
      → AllSmall m.pages n front
      → Taken m xs page n m'
      → Answer m xs n page m'

alloc_short :
    (m : FreeArea) (n : ℕ) → 0 < n → m.nr_free < n → default_alloc_pages n m ≡ some (null, m)
unfolding default_alloc_pages
alloc_short m n pos lt =
    let t : ltb 0 n ≡ true = ground arith in
    let u : ltb m.nr_free n ≡ true = ground arith in rw (t, u)

alloc_runs :
    (m : FreeArea) (xs : List Ptr) (n : ℕ)
    → IsFree m xs
    → 0 < n
    → ltb m.nr_free n ≡ false
    → default_alloc_pages n m
      ≡ some (
        first_of m.pages n xs,
        if first_of m.pages n xs == null then m else take_pages (first_of m.pages n xs) n m,
      )
unfolding default_alloc_pages
alloc_runs m xs n is pos u =
    let t : ltb 0 n ≡ true = ground arith in
    let room : length xs < m.nr_free + 2 =
      omega (arith, length_le_total m.pages 2 xs is.blocks, is.counted) in
    rw (
      t,
      u,
      first_fit-Forward (m.nr_free + 2) free_list xs n m
          (Forward-Chain m.page_links free_list xs free_list is.ring.chain) is.ring.distinct.0 room,
    )

found :
    (m : FreeArea) (xs : List Ptr) (n : ℕ)
    → IsFree m xs
    → 0 < n
    → (s : Split m.pages n xs)
    → Answer m xs n
        (first_of m.pages n xs)
        (if first_of m.pages n xs == null then m else take_pages (first_of m.pages n xs) n m)
found m xs n is pos s =
    let is' = subst (λ ys. IsFree m ys) s.whole is in
    let in_list =
      has-in_blocks m.pages 2 xs s.page is.blocks
        (ground (arith, s.whole, has-append s.page s.front (s.page ∷ s.back))) in
    let above = Blocks_lower m.pages 2 xs s.page is.blocks in_list.0 in
    rw (s.first, ==_ne s.page null (omega arith))
      (block s.front s.back s.whole s.small (
        subst (λ ys. Taken m ys s.page n (take_pages s.page n m)) (sym s.whole)
          (take_pages-Taken m s.front s.page s.back n is' pos s.large)))

-- From a sound free list, for n > 0, default_alloc_pages returns. Either it answers NULL, changes
-- nothing, and no free block has n pages, or it answers the first block that has n pages, whose
-- first n pages are then no longer free, while the list is sound and every other page is as it
-- was.
pub default_alloc_pages-IsFree :
    (m : FreeArea) (xs : List Ptr) (n : ℕ)
    → IsFree m xs
    → 0 < n
    → Ends (default_alloc_pages n m) λ (page, m'). Answer m xs n page m'
default_alloc_pages-IsFree m xs n is pos = elim (Bool-cases (ltb m.nr_free n)) [
  | inl u ↦ (
    (null, m),
    alloc_short m n pos (ground arith),
    no_block refl refl (small_total m.pages n xs (ground (arith, is.counted))),
  )
  | inr u ↦ (
    (
      first_of m.pages n xs,
      if first_of m.pages n xs == null then m else take_pages (first_of m.pages n xs) n m,
    ),
    alloc_runs m xs n is pos u,
    elim (Split-first m.pages n xs) [
      | inl h ↦ rw (h.0) (no_block refl refl h.1)
      | inr s ↦ found m xs n is pos s
    ],
  )
]
