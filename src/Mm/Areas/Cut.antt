-- ===== src/Mm/Areas/Cut.antt =====
-- The areas of a sorted sequence that begin at an address or below, and those that begin above: where
-- the loop of `insert_vma_struct` stops, and when both parts are clear of a range.
use os_lab.Base.{
  Ptr, ℕ, suc, ◌<◌, ◌≤◌, ◌≡◌, Bool-cases, inl, inr, true, false, ◌&&◌, ==_ne, ==_refl, ltb, leb,
  List, [], ◌∷◌, ◌++◌, has, length, refl, arith, ap, some, last_or,
}
use os_lab.Libs.Links.{list_next}
use os_lab.Libs.Links.Ring.{Chain}
use os_lab.Mm.Areas.Defs.{Vma, Spaces, find_prev}
use os_lab.Mm.Areas.Sorted.{Areas, is_clear, Areas-lower}

-- The areas that begin at `start` or below, and those that begin above.
pub record Cut (f : Ptr → Vma) (start : ℕ) (xs : List Ptr) : Type 0 where
  pub front : List Ptr
  pub back : List Ptr
  pub whole : xs ≡ front ++ back
  pub below : (q : Ptr) → has q front ≡ true → (f q).vm_start ≤ start
  pub above : (q : Ptr) → has q back ≡ true → start < (f q).vm_start

pub cut : (f : Ptr → Vma) (lo start : ℕ) (xs : List Ptr) → Areas f lo xs → Cut f start xs
cut f lo start [] a = record {
  front = [];
  back = [];
  whole = refl;
  below = λ q i. ground arith;
  above = λ q i. ground arith;
}
cut f lo start (x ∷ xs) a = elim (Bool-cases (ltb start (f x).vm_start)) [
  | inl lt ↦ record {
    front = [];
    back = x ∷ xs;
    whole = refl;
    below = λ q i. ground arith;
    above = λ q i. ground (arith, Areas-lower f (f x).vm_end xs q a.2, a.1);
  }
  | inr ge ↦
      let c = cut f (f x).vm_end start xs a.2 in
      record {
        front = x ∷ c.front;
        back = c.back;
        whole = ap (◌∷◌ x) c.whole;
        below = λ q i. ground (arith, c.below q);
        above = c.above;
      }
]

pub find_prev_runs :
    (n : ℕ) (list a : Ptr) (front back : List Ptr) (start : ℕ) (s : Spaces)
    → Chain s.mmap_links a (front ++ back) list
    → has list (front ++ back) ≡ false
    → ((q : Ptr) → has q front ≡ true → (s.vmas q).vm_start ≤ start)
    → ((q : Ptr) → has q back ≡ true → start < (s.vmas q).vm_start)
    → length front < n
    → find_prev n list a start s ≡ some (last_or a front)
unfolding find_prev list_next
find_prev_runs Prim.Native.Nat.zero list a front back start s c o lo hi lt = absurd (omega arith)
find_prev_runs (suc n) list a [] [] start s c o lo hi lt = rw (c.0, ==_refl list)
find_prev_runs (suc n) list a [] (y ∷ back) start s c o lo hi lt =
    let t : ltb start (s.vmas y).vm_start ≡ true = ground (arith, hi y) in
    rw (c.0, ==_ne y list (ground arith), t)
find_prev_runs (suc n) list a (x ∷ front) back start s c o lo hi lt =
    let t : ltb start (s.vmas x).vm_start ≡ false = ground (arith, lo x) in
    let rest =
      find_prev_runs n list x front back start s c.2 (ground arith) (λ q i. lo q (ground arith)) hi
        (omega arith) in
    rw (c.0, ==_ne x list (ground arith), t) rest

-- Where the last area of the sequence ends.
abbrev pub end_of_areas : (Ptr → Vma) → ℕ → List Ptr → ℕ
end_of_areas f lo [] = lo
end_of_areas f lo (x ∷ xs) = end_of_areas f (f x).vm_end xs

pub end_of_last :
    (f : Ptr → Vma) (lo a : ℕ) (x : Ptr) (xs : List Ptr)
    → end_of_areas f lo (x ∷ xs) ≡ (f (last_or a (x ∷ xs))).vm_end
end_of_last f lo a x [] = refl
end_of_last f lo a x (y ∷ ys) = end_of_last f (f x).vm_end x y ys

module _ (f : Ptr → Vma) where
  pub Areas-left : (lo : ℕ) (xs ys : List Ptr) → Areas f lo (xs ++ ys) → Areas f lo xs
  Areas-left lo [] ys a = tt
  Areas-left lo (x ∷ xs) ys a = (a.0, a.1, Areas-left (f x).vm_end xs ys a.2)

  pub Areas-right :
      (lo : ℕ) (xs ys : List Ptr) → Areas f lo (xs ++ ys) → Areas f (end_of_areas f lo xs) ys
  Areas-right lo [] ys a = a
  Areas-right lo (x ∷ xs) ys a = Areas-right (f x).vm_end xs ys a.2

  le_end_of_areas : (lo : ℕ) (xs : List Ptr) → Areas f lo xs → lo ≤ end_of_areas f lo xs
  le_end_of_areas lo [] a = omega arith
  le_end_of_areas lo (x ∷ xs) a = omega (arith, le_end_of_areas (f x).vm_end xs a.2, a.0, a.1)

  -- The areas below are clear of [from, to) exactly if the last of them is.
  pub clear_below :
      (lo from to : ℕ) (xs : List Ptr)
      → Areas f lo xs
      → ((q : Ptr) → has q xs ≡ true → (f q).vm_start ≤ from)
      → from < to
      → lo ≤ from
      → is_clear f from to xs ≡ leb (end_of_areas f lo xs) from
  clear_below lo from to [] a h lt le = ground arith
  clear_below lo from to (x ∷ xs) a h lt le = elim (Bool-cases (leb (f x).vm_end from)) [
    | inl e ↦ ground (
      arith,
      h x,
      clear_below (f x).vm_end from to xs a.2 (λ q i. h q (ground arith)) lt (ground arith),
    )
    | inr e ↦ ground (arith, h x, le_end_of_areas (f x).vm_end xs a.2)
  ]

  pub clear_above :
      (lo from to : ℕ) (xs : List Ptr)
      → Areas f lo xs
      → ((q : Ptr) → has q xs ≡ true → to ≤ (f q).vm_start)
      → is_clear f from to xs ≡ true
  clear_above lo from to [] a h = refl
  clear_above lo from to (x ∷ xs) a h =
      ground (arith, h x, clear_above (f x).vm_end from to xs a.2 (λ q i. h q (ground arith)))

  pub is_clear-append :
      (from to : ℕ) (xs ys : List Ptr)
      → is_clear f from to (xs ++ ys) ≡ (is_clear f from to xs && is_clear f from to ys)
  is_clear-append from to [] ys = refl
  is_clear-append from to (x ∷ xs) ys = ground (arith, is_clear-append from to xs ys)
