-- ===== src/Mm/FirstFit/Last.antt =====
-- `default_free_pages`, where every free block is below the freed one. The loop adds the block behind
-- the last one and does not stop: it comes to the block itself and adds it behind itself.
use mathlib.Core.List.{append-nil}
use os_lab.Base.{
  Ptr, ℕ, suc, ◌+◌, ◌<◌, ◌^◌, ◌%◌, ◌≡◌, ◌≢◌, true, false, ◌==◌, ==_ne, ltb, List, [], ◌∷◌, ◌++◌,
  has, has-append, refl, arith, if◌then◌else◌, length, ◌∙◌, ap, last_or, subst, sym, some, Ends,
  Bool-cases, inl, inr,
}
use os_lab.Libs.Links.{Links, list_next, list_prev, list_add, list_empty, list_add_between}
use os_lab.Libs.Links.Ring.{Ring, Chain}
use os_lab.Libs.Links.Edit.{list_add-Ring_at, next_of-Ring}
use os_lab.Mm.FirstFit.Defs.{
  FreeArea, free_list, place, insert_block, merge_prev, merge_next, default_free_pages,
}
use os_lab.Mm.FirstFit.Blocks.{IsFree, SameBlocks, length_le_total}
use os_lab.Mm.FirstFit.Alloc.{Forward, Forward-Chain}
use os_lab.Mm.FirstFit.Free.{InUse, clear_pages_runs}
use os_lab.Mm.FirstFit.Release.{marked, free_runs, freed-SameBlocks}

-- `base` added behind `a`, and then behind itself.
abbrev behind_itself : (a base : Ptr) → Links → Links
behind_itself a base l = list_add base base (list_add a base l)

added_next :
    (a base q : Ptr) (l : Links)
    → a ≢ base
    → (list_add a base l).next q
      ≡ (if q == base then l.next a else if q == a then base else l.next q)
unfolding list_add list_add_between
added_next a base q l ne = ground arith

itself_next : (base q : Ptr) (l : Links) → (list_add base base l).next q ≡ l.next q
unfolding list_add list_add_between
itself_next base q l = ground arith

itself_prev :
    (base : Ptr) (l : Links) → l.next base ≢ base → (list_add base base l).prev base ≡ base
unfolding list_add list_add_between
itself_prev base l ne = ground arith

place_behind :
    (f : ℕ) (a base : Ptr) (l : Links)
    → l.next a ≡ free_list
    → a < base
    → base ≢ free_list
    → 1 < f
    → place f a base (list_add a base l) ≡ some (behind_itself a base l)
unfolding place list_next
place_behind Prim.Native.Nat.zero a base l e lt ne pos = absurd (omega arith)
place_behind (suc Prim.Native.Nat.zero) a base l e lt ne pos = absurd (omega arith)
place_behind (suc (suc f)) a base l e lt ne pos =
    let to_base : (list_add a base l).next a ≡ base =
      added_next a base a l (omega arith) ∙ ground arith in
    let to_head : (list_add a base l).next base ≡ free_list =
      added_next a base base l (omega arith) ∙ ground arith in
    let t : ltb base base ≡ false = ground arith in
    rw
      (
        to_base,
        ==_ne base free_list ne,
        t,
        to_head,
        itself_next base base (list_add a base l),
        to_head,
      )
      refl

place_last :
    (f : ℕ) (a x : Ptr) (xs : List Ptr) (base : Ptr) (l : Links)
    → Chain l a (x ∷ xs) free_list
    → has free_list (x ∷ xs) ≡ false
    → ((q : Ptr) → has q (x ∷ xs) ≡ true → q < base)
    → base ≢ free_list
    → length xs + 2 < f
    → place f a base l ≡ some (behind_itself (last_or x xs) base l)
unfolding place list_next
place_last Prim.Native.Nat.zero a x xs base l c o lo ne lt = absurd (omega arith)
place_last (suc f) a x [] base l c o lo ne lt =
    let t : ltb base x ≡ false = ground (arith, lo x) in
    rw (c.0, ==_ne x free_list (ground arith), t, c.2.0)
      (place_behind f x base l c.2.0 (lo x (ground arith)) ne (omega arith))
place_last (suc f) a x (y ∷ ys) base l c o lo ne lt =
    let t : ltb base x ≡ false = ground (arith, lo x) in
    let rest =
      place_last f x y ys base l c.2 (ground arith) (λ q i. lo q (ground arith)) ne (omega arith) in
    rw (c.0, ==_ne x free_list (ground arith), t, c.2.0, ==_ne y free_list (ground arith)) rest

insert_last :
    (fuel x : ℕ) (xs : List Ptr) (base : Ptr) (l : Links)
    → Ring l free_list (x ∷ xs)
    → ((q : Ptr) → has q (x ∷ xs) ≡ true → q < base)
    → base ≢ free_list
    → length xs + 2 < fuel
    → insert_block fuel base l ≡ some (behind_itself (last_or x xs) base l)
unfolding insert_block list_empty
insert_last fuel x xs base l r lo ne lt =
    rw (r.chain.0, ==_ne x free_list (ground (arith, r.distinct.0)))
      (place_last fuel free_list x xs base l r.chain r.distinct.0 lo ne lt)

pub Forward-frame :
    (l m : Links) (a : Ptr) (xs : List Ptr) (b : Ptr)
    → ((q : Ptr) → m.next q ≡ l.next q)
    → Forward l a xs b
    → Forward m a xs b
Forward-frame l m a [] b e w = e a ∙ w
Forward-frame l m a (x ∷ xs) b e w = (e a ∙ w.0, Forward-frame l m x xs b e w.1)

-- The block is in the list, and before itself.
pub record Misplaced (m : FreeArea) (xs : List Ptr) (base n : ℕ) (m' : FreeArea) : Type 0 where
  pub prev_self : m'.page_links.prev base ≡ base
  pub next_head : m'.page_links.next base ≡ free_list
  pub forward : Forward m'.page_links free_list (xs ++ base ∷ []) free_list
  pub size : (m'.pages base).property ≡ n
  pub more : m'.nr_free ≡ m.nr_free + n
  pub same : SameBlocks m.pages m'.pages xs

no_merge :
    (base : Ptr) (m : FreeArea)
    → m.page_links.prev base ≡ base
    → m.page_links.next base ≡ free_list
    → 0 < (m.pages base).property
    → merge_next (merge_prev base m).0 (merge_prev base m).1 ≡ m
unfolding merge_next merge_prev list_prev list_next
no_merge base m p n pos =
    let t : (base + (m.pages base).property == base) ≡ false = ground arith in
    elim (Bool-cases (base == free_list)) [ inl e ↦ rw (p, e, n) | inr e ↦ rw (p, e, t, n) ]

-- If every free block is below the n freed pages, default_free_pages leaves their block before
-- itself in the list, and merges it with no other.
pub default_free_pages-Misplaced :
    (m : FreeArea) (x : Ptr) (xs : List Ptr) (base n : ℕ)
    → IsFree m (x ∷ xs)
    → 0 < n
    → InUse m.pages (x ∷ xs) base n
    → m.nr_free + n < 2 ^ 32
    → ((q : Ptr) → has q (x ∷ xs) ≡ true → q < base)
    → Ends (default_free_pages base n m) λ m'. Misplaced m (x ∷ xs) base n m'
default_free_pages-Misplaced m x xs base n is pos u few lo =
    let (g, clear, same) =
      clear_pages_runs n base m.pages (λ q i. (u.not_reserved q i, u.unmarked q i)) in
    let links = behind_itself (last_or x xs) base m.page_links in
    let put =
      insert_last ((m.nr_free + n) % 2 ^ 32 + 2) x xs base m.page_links is.ring lo
        (omega (arith, u.above))
        (omega (arith, length_le_total m.pages 2 (x ∷ xs) is.blocks, is.counted)) in
    let ring =
      list_add-Ring_at (x ∷ xs) base []
        (subst (λ ys. Ring m.page_links free_list ys) (sym (append-nil (x ∷ xs))) is.ring)
        (ground (arith, u.above, lo base, has-append base (x ∷ xs) [])) in
    let one = list_add (last_or x xs) base m.page_links in
    let head : one.next base ≡ free_list = next_of-Ring (x ∷ xs) base [] ring in
    let self : links.prev base ≡ base = itself_prev base one (rw head (omega (arith, u.above))) in
    let next : links.next base ≡ free_list = itself_next base base one ∙ head in
    let now = marked m base n g links in
    let size : (now.pages base).property ≡ n = ground arith in
    (
      now,
      free_runs m base n g links pos clear put
          ∙ ap some (no_merge base now self next (omega (arith, size))),
      record {
        prev_self = self;
        next_head = next;
        forward =
            Forward-frame one links free_list ((x ∷ xs) ++ base ∷ []) free_list
              (λ q. itself_next base q one)
              (Forward-Chain one free_list ((x ∷ xs) ++ base ∷ []) free_list ring.chain);
        size = size;
        more = omega arith;
        same = freed-SameBlocks m (x ∷ xs) base n is pos u few g links same;
      },
    )
