-- ===== src/Mm/FirstFit/Free.antt =====
-- `default_free_pages`, where the free list is empty or has a block above the freed one.
use os_lab.Base.{
  Ptr, ℕ, suc, ◌+◌, ◌<◌, ◌≤◌, ◌≡◌, ◌≢◌, ◌⊎◌, inl, inr, Bool-cases, true, false, ==_ne, ltb, List,
  [], ◌∷◌, ◌++◌, has, has-append, refl, arith, length, ◌∙◌, ap, update, some, Ends,
}
use os_lab.Libs.Links.{Links, list_next, list_add, list_add_before, list_empty}
use os_lab.Libs.Links.Ring.{Ring, Chain}
use os_lab.Libs.Links.Edit.{list_add_before-Ring_at, list_add-Ring}
use os_lab.Mm.FirstFit.Defs.{Page, free_list, clear_pages, place, insert_block}
use os_lab.Mm.FirstFit.Blocks.{Blocks, end_of, in_range, in_blocks, has-in_blocks, Blocks_lower}

-- The n pages from `base` on are in use.
pub record InUse (f : Ptr → Page) (xs : List Ptr) (base n : ℕ) : Type 0 where
  pub above : 2 ≤ base
  pub not_free : (q : Ptr) → in_range base n q ≡ true → in_blocks f xs q ≡ false
  pub not_reserved : (q : Ptr) → in_range base n q ≡ true → (f q).reserved ≡ false
  pub unmarked : (q : Ptr) → in_range base n q ≡ true → (f q).is_head ≡ false

-- The pages outside the range are untouched.
pub clear_pages_runs :
    (n : ℕ) (base : Ptr) (f : Ptr → Page)
    → ((q : Ptr) → in_range base n q ≡ true → ((f q).reserved ≡ false) × ((f q).is_head ≡ false))
    → Ends (clear_pages n base f) λ g. (q : Ptr) → in_range base n q ≡ false → g q ≡ f q
unfolding clear_pages
clear_pages_runs Prim.Native.Nat.zero base f h = (f, refl, λ q i. refl)
clear_pages_runs (suc n) base f h =
    let own = h base (ground arith) in
    let (g, run, same) =
      clear_pages_runs n (suc base)
        (update f base (record (f base) { ref = 0; reserved = false; is_head = false }))
        (λ q i. ground (arith, h q)) in
    (g, rw (own.0, own.1) run, λ q i. same q (ground arith) ∙ ground arith)

-- The blocks below `base`, and those above.
pub record Around (f : Ptr → Page) (lo : ℕ) (xs : List Ptr) (base : ℕ) : Type 0 where
  pub front : List Ptr
  pub back : List Ptr
  pub whole : xs ≡ front ++ back
  pub below : (q : Ptr) → has q front ≡ true → q < base
  pub higher : (q : Ptr) → has q back ≡ true → base < q
  pub gap : end_of f lo front ≤ suc base

pub around :
    (f : Ptr → Page) (lo : ℕ) (xs : List Ptr) (base : ℕ)
    → Blocks f lo xs
    → lo ≤ suc base
    → in_blocks f xs base ≡ false
    → Around f lo xs base
around f lo [] base b le out = record {
  front = [];
  back = [];
  whole = refl;
  below = λ q i. ground arith;
  higher = λ q i. ground arith;
  gap = le;
}
around f lo (x ∷ xs) base b le out = elim (Bool-cases (ltb x base)) [
  | inl lt ↦
      let a = around f (suc (x + (f x).property)) xs base b.3 (ground arith) (ground arith) in
      record {
        front = x ∷ a.front;
        back = a.back;
        whole = ap (◌∷◌ x) a.whole;
        below = λ q i. ground (arith, a.below q);
        higher = a.higher;
        gap = a.gap;
      }
  | inr ge ↦ record {
    front = [];
    back = x ∷ xs;
    whole = refl;
    below = λ q i. ground arith;
    higher = λ q i. ground (
      arith,
      b.1,
      has-in_blocks f (suc (x + (f x).property)) xs q b.3,
      Blocks_lower f (suc (x + (f x).property)) xs q b.3,
    );
    gap = le;
  }
]

-- The loop ends at the first block above `base`.
place_runs :
    (f : ℕ) (a : Ptr) (front : List Ptr) (y : Ptr) (back : List Ptr) (base : Ptr) (l : Links)
    → Chain l a (front ++ y ∷ back) free_list
    → has free_list (front ++ y ∷ back) ≡ false
    → ((q : Ptr) → has q front ≡ true → q < base)
    → base < y
    → length front < f
    → place f a base l ≡ some (list_add_before y base l)
unfolding place list_next
place_runs Prim.Native.Nat.zero a front y back base l c o lo hi lt = absurd (omega arith)
place_runs (suc f) a [] y back base l c o lo hi lt =
    let t : ltb base y ≡ true = ground arith in rw (c.0, ==_ne y free_list (ground arith), t)
place_runs (suc f) a (x ∷ []) y back base l c o lo hi lt =
    let t : ltb base x ≡ false = ground (arith, lo x) in
    let rest =
      place_runs f x [] y back base l c.2 (ground arith) (λ q i. ground arith) hi (omega arith) in
    rw (c.0, ==_ne x free_list (ground arith), t, c.2.0, ==_ne y free_list (ground arith)) rest
place_runs (suc f) a (x ∷ z ∷ front) y back base l c o lo hi lt =
    let t : ltb base x ≡ false = ground (arith, lo x) in
    let rest =
      place_runs f x (z ∷ front) y back base l c.2 (ground arith) (λ q i. lo q (ground arith)) hi
        (omega arith) in
    rw (c.0, ==_ne x free_list (ground arith), t, c.2.0, ==_ne z free_list (ground arith)) rest

empty_runs :
    (fuel : ℕ) (base : Ptr) (l : Links)
    → Ring l free_list []
    → insert_block fuel base l ≡ some (list_add free_list base l)
unfolding insert_block list_empty
empty_runs fuel base l r = rw (r.chain.0)

full_runs :
    (fuel : ℕ) (front : List Ptr) (y : Ptr) (back : List Ptr) (base : Ptr) (l : Links)
    → Ring l free_list (front ++ y ∷ back)
    → ((q : Ptr) → has q front ≡ true → q < base)
    → base < y
    → length front < fuel
    → insert_block fuel base l ≡ some (list_add_before y base l)
unfolding insert_block list_empty
full_runs fuel [] y back base l r lo hi lt =
    rw (r.chain.0, ==_ne y free_list (ground (arith, r.distinct.0)))
      (place_runs fuel free_list [] y back base l r.chain r.distinct.0 lo hi lt)
full_runs fuel (x ∷ front) y back base l r lo hi lt =
    rw (r.chain.0, ==_ne x free_list (ground (arith, r.distinct.0)))
      (place_runs fuel free_list (x ∷ front) y back base l r.chain r.distinct.0 lo hi lt)

-- There is room above: the list is empty or has a block above `base`.
abbrev pub HasRoom : List Ptr → Ptr → Type 0
HasRoom xs base = (xs ≡ []) ⊎ ((y : Ptr) × (has y xs ≡ true) × (base < y))

pub insert_block-Ring :
    (fuel : ℕ) (front back : List Ptr) (base : Ptr) (l : Links)
    → Ring l free_list (front ++ back)
    → ((q : Ptr) → has q front ≡ true → q < base)
    → ((q : Ptr) → has q back ≡ true → base < q)
    → base ≢ free_list
    → HasRoom (front ++ back) base
    → length front < fuel
    → Ends (insert_block fuel base l) λ l'. Ring l' free_list (front ++ base ∷ back)
insert_block-Ring fuel [] [] base l r lo hi ne room lt =
    (list_add free_list base l, empty_runs fuel base l r, list_add-Ring [] base r (ground arith))
insert_block-Ring fuel (x ∷ front) [] base l r lo hi ne room lt =
    absurd
      (elim room [ inl e ↦ cc | inr s ↦ ground (arith, lo s.0, has-append s.0 (x ∷ front) []) ])
insert_block-Ring fuel front (y ∷ back) base l r lo hi ne room lt = (
  list_add_before y base l,
  full_runs fuel front y back base l r lo (hi y (ground arith)) lt,
  list_add_before-Ring_at front y back base r
      (ground (arith, has-append base front (y ∷ back), lo base, hi base)),
)
