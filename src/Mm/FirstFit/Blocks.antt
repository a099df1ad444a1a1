-- ===== src/Mm/FirstFit/Blocks.antt =====
-- The free list as a sequence of blocks: apart from each other, in the order of their addresses.
use os_lab.Base.{
  length, Ptr, ℕ, suc, ◌+◌, ◌<◌, ◌≤◌, ◌^◌, ◌≡◌, Bool, true, false, ◌&&◌, ◌||◌, ltb, leb, List, [],
  ◌∷◌, ◌++◌, has, refl, arith,
}
use os_lab.Libs.Links.Ring.{Ring}
use os_lab.Mm.FirstFit.Defs.{Page, FreeArea, free_list}

-- From `lo` on; a page at least lies between two blocks.
abbrev pub Blocks : (Ptr → Page) → ℕ → List Ptr → Type 0
Blocks pages lo [] = Unit {0}
Blocks pages lo (x ∷ xs) =
    (lo ≤ x)
    × (0 < (pages x).property)
    × ((pages x).is_head ≡ true)
    × Blocks pages (suc (x + (pages x).property)) xs

-- The least address that a block after `xs` can have.
abbrev pub end_of : (Ptr → Page) → ℕ → List Ptr → ℕ
end_of pages lo [] = lo
end_of pages lo (x ∷ xs) = end_of pages (suc (x + (pages x).property)) xs

abbrev pub total : (Ptr → Page) → List Ptr → ℕ
total pages [] = 0
total pages (x ∷ xs) = (pages x).property + total pages xs

abbrev pub in_range : (base n q : ℕ) → Bool
in_range base n q = leb base q && ltb q (base + n)

-- Whether the page `q` is free.
abbrev pub in_blocks : (Ptr → Page) → List Ptr → Ptr → Bool
in_blocks pages [] q = false
in_blocks pages (x ∷ xs) q = in_range x (pages x).property q || in_blocks pages xs q

-- The blocks of the free list are `xs`.
pub record IsFree (m : FreeArea) (xs : List Ptr) : Type 0 where
  pub ring : Ring m.page_links free_list xs
  pub blocks : Blocks m.pages 2 xs
  pub counted : m.nr_free ≡ total m.pages xs
  pub few : m.nr_free < 2 ^ 32

-- The blocks `xs` read the same in both.
pub record SameBlocks (f g : Ptr → Page) (xs : List Ptr) : Type 0 where
  pub property_same : (q : Ptr) → has q xs ≡ true → (g q).property ≡ (f q).property
  pub head_same : (q : Ptr) → has q xs ≡ true → (g q).is_head ≡ (f q).is_head

module _ {f g : Ptr → Page} where
  pub SameBlocks-rest : {x : Ptr} {xs : List Ptr} → SameBlocks f g (x ∷ xs) → SameBlocks f g xs
  SameBlocks-rest s = record {
    property_same = λ q i. s.property_same q (ground arith);
    head_same = λ q i. s.head_same q (ground arith);
  }

  pub Blocks-frame : (lo : ℕ) (xs : List Ptr) → SameBlocks f g xs → Blocks f lo xs → Blocks g lo xs
  Blocks-frame lo [] s b = tt
  Blocks-frame lo (x ∷ xs) s b =
      let e = s.property_same x (ground arith) in
      let h = s.head_same x (ground arith) in
      rw (e, h) (b.0, b.1, b.2, Blocks-frame (suc (x + (f x).property)) xs (SameBlocks-rest s) b.3)

  pub total-frame : (xs : List Ptr) → SameBlocks f g xs → total g xs ≡ total f xs
  total-frame [] s = refl
  total-frame (x ∷ xs) s =
      rw (s.property_same x (ground arith), total-frame xs (SameBlocks-rest s)) refl

  pub end_of-frame : (lo : ℕ) (xs : List Ptr) → SameBlocks f g xs → end_of g lo xs ≡ end_of f lo xs
  end_of-frame lo [] s = refl
  end_of-frame lo (x ∷ xs) s =
      rw (s.property_same x (ground arith))
        (end_of-frame (suc (x + (f x).property)) xs (SameBlocks-rest s))

  pub in_blocks-frame :
      (xs : List Ptr) (q : Ptr) → SameBlocks f g xs → in_blocks g xs q ≡ in_blocks f xs q
  in_blocks-frame [] q s = refl
  in_blocks-frame (x ∷ xs) q s =
      rw (s.property_same x (ground arith), in_blocks-frame xs q (SameBlocks-rest s)) refl

module _ (f : Ptr → Page) where
  pub Blocks_weaken : (lo lo' : ℕ) (xs : List Ptr) → lo' ≤ lo → Blocks f lo xs → Blocks f lo' xs
  Blocks_weaken lo lo' [] le b = tt
  Blocks_weaken lo lo' (x ∷ xs) le b = (omega arith, b.1, b.2, b.3)

  pub Blocks-left : (lo : ℕ) (xs ys : List Ptr) → Blocks f lo (xs ++ ys) → Blocks f lo xs
  Blocks-left lo [] ys b = tt
  Blocks-left lo (x ∷ xs) ys b = (b.0, b.1, b.2, Blocks-left (suc (x + (f x).property)) xs ys b.3)

  pub Blocks-right :
      (lo : ℕ) (xs ys : List Ptr) → Blocks f lo (xs ++ ys) → Blocks f (end_of f lo xs) ys
  Blocks-right lo [] ys b = b
  Blocks-right lo (x ∷ xs) ys b = Blocks-right (suc (x + (f x).property)) xs ys b.3

  pub Blocks-append :
      (lo : ℕ) (xs ys : List Ptr)
      → Blocks f lo xs
      → Blocks f (end_of f lo xs) ys
      → Blocks f lo (xs ++ ys)
  Blocks-append lo [] ys b c = c
  Blocks-append lo (x ∷ xs) ys b c =
      (b.0, b.1, b.2, Blocks-append (suc (x + (f x).property)) xs ys b.3 c)

  pub end_of-append :
      (lo : ℕ) (xs ys : List Ptr) → end_of f lo (xs ++ ys) ≡ end_of f (end_of f lo xs) ys
  end_of-append lo [] ys = refl
  end_of-append lo (x ∷ xs) ys = end_of-append (suc (x + (f x).property)) xs ys

  pub le_end_of : (lo : ℕ) (xs : List Ptr) → Blocks f lo xs → lo ≤ end_of f lo xs
  le_end_of lo [] b = omega arith
  le_end_of lo (x ∷ xs) b = omega (arith, le_end_of (suc (x + (f x).property)) xs b.3, b.0)

  pub total-append : (xs ys : List Ptr) → total f (xs ++ ys) ≡ total f xs + total f ys
  total-append [] ys = omega arith
  total-append (x ∷ xs) ys = omega (arith, total-append xs ys)

  pub in_blocks-append :
      (xs ys : List Ptr) (q : Ptr)
      → in_blocks f (xs ++ ys) q ≡ (in_blocks f xs q || in_blocks f ys q)
  in_blocks-append [] ys q = refl
  in_blocks-append (x ∷ xs) ys q = ground (arith, in_blocks-append xs ys q)

  -- The members of a sequence of blocks lie within its bounds.
  pub Blocks_lower :
      (lo : ℕ) (xs : List Ptr) (q : Ptr) → Blocks f lo xs → in_blocks f xs q ≡ true → lo ≤ q
  Blocks_lower lo [] q b i = ground arith
  Blocks_lower lo (x ∷ xs) q b i =
      ground (arith, b.0, Blocks_lower (suc (x + (f x).property)) xs q b.3)

  pub Blocks_upper :
      (lo : ℕ) (xs : List Ptr) (q : Ptr)
      → Blocks f lo xs
      → in_blocks f xs q ≡ true
      → suc q < end_of f lo xs
  Blocks_upper lo [] q b i = ground arith
  Blocks_upper lo (x ∷ xs) q b i = ground (
    arith,
    le_end_of (suc (x + (f x).property)) xs b.3,
    Blocks_upper (suc (x + (f x).property)) xs q b.3,
  )

  pub has-in_blocks :
      (lo : ℕ) (xs : List Ptr) (q : Ptr)
      → Blocks f lo xs
      → has q xs ≡ true
      → (in_blocks f xs q ≡ true) × ((f q).property ≤ total f xs) × ((f q).is_head ≡ true)
  has-in_blocks lo [] q b i = ground arith
  has-in_blocks lo (x ∷ xs) q b i =
      ground (arith, b.1, b.2, has-in_blocks (suc (x + (f x).property)) xs q b.3)

pub length_le_total :
    (f : Ptr → Page) (lo : ℕ) (xs : List Ptr) → Blocks f lo xs → length xs ≤ total f xs
length_le_total f lo [] b = omega arith
length_le_total f lo (x ∷ xs) b =
    omega (arith, length_le_total f (suc (x + (f x).property)) xs b.3, b.1)
