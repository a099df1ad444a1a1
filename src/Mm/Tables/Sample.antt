-- ===== src/Mm/Tables/Sample.antt =====
-- A small memory with page tables, and the free list of default_pmm.c: page 8 is in use, pages 9 to 15
-- are one free block.
use os_lab.Base.{
  [], ◌∷◌, leb, ltb, Ptr, ℕ, ◌≡◌, ◌==◌, Bool, true, ◌&&◌, Bool-cases, inl, inr, if◌then◌else◌, refl,
  arith,
}
use os_lab.Mm.Tables.Defs.{Memory, is_valid, pte_create}
use os_lab.Mm.Tables.Tree.{leaf, no_place, kernel_place}
use os_lab.Mm.Tables.FirstFit.{FreePages}
use os_lab.Mm.Tables.Manager.{AreApart}
use os_lab.Mm.Tables.Enter.{IsMemory}

-- The root is page 6, with the tables 2 and 3 for the address 0x200000, which is mapped to page 4.
abbrev pub tables : Ptr → ℕ → ℕ
tables p i =
    if (p == 6) && (i == 0)
    then pte_create 2 17
    else if (p == 2) && (i == 1)
    then pte_create 3 17
    else if (p == 3) && (i == 0)
    then pte_create 4 31
    else 0

abbrev pub kernel : Ptr → Bool
kernel q = leb q 1

abbrev pub four_pages : Memory
four_pages = record {
  area = record {
    pages = λ q. record {
      ref = if q == 4 then 1 else 0;
      reserved = kernel q;
      is_head = q == 9;
      property = if q == 9 then 7 else 0;
    };
    page_links = record {
      next = λ p. if p == 1 then 9 else if p == 9 then 1 else 0;
      prev = λ p. if p == 1 then 9 else if p == 9 then 1 else 0;
    };
    nr_free = 7;
  };
  words = tables;
  npage = 16;
}

abbrev pub place : Ptr → ℕ
place p =
    if kernel p
    then kernel_place
    else if p == 6
    then 0
    else if p == 2
    then 1
    else if p == 3
    then 514
    else if p == 4
    then 263169
    else no_place

abbrev pub free : Ptr → Bool
free q = leb 9 q && ltb q 16

-- An entry of a table that has one only.
only_one : (at value i : ℕ) → is_valid (if i == at then value else 0) ≡ true → i ≡ at
only_one at value i v = elim (Bool-cases (i == at)) [
  | inl e ↦ ground arith
  | inr e ↦ absurd (ground (arith, rw e at v))
]

only_leaf : (i j k : ℕ) → is_valid (leaf tables 6 i j k) ≡ true → (i ≡ 0) × (j ≡ 1) × (k ≡ 0)
only_leaf i j k v = elim (Bool-cases (i == 0)) [
  | inr e ↦ absurd (ground (arith, rw e at v))
  | inl e ↦ elim (Bool-cases (j == 1)) [
    | inr e' ↦ absurd (ground (arith, rw (e, e') at v))
    | inl e' ↦ (ground arith, ground arith, only_one 0 (pte_create 4 31) k (rw (e, e') at v))
  ]
]

pub four_pages-IsMemory : IsMemory (FreePages kernel) four_pages 6 place free
four_pages-IsMemory = record {
  sound = record {
    blocks = 9 ∷ [];
    sound = record {
      ring = record { chain = ground arith; distinct = ground arith };
      blocks = (omega arith, omega arith, refl, tt);
      counted = refl;
      few = omega arith;
    };
    covers = λ q. ground arith;
    below = λ q f. ground arith;
    kernel_used = λ q k. ground arith;
    kernel_head = refl;
    not_reserved = λ q k. k;
    unmarked = λ q k u. ground arith;
  };
  tree = record {
    root = record { here = refl; below = omega arith; used = refl; ne_null = omega arith };
    mid = λ i li v.
        rw (only_one 0 (pte_create 2 17) i v)
          (record { here = refl; below = omega arith; used = refl; ne_null = omega arith });
    low = λ i j li lj v v'.
        let at = only_one 0 (pte_create 2 17) i v in
        let at' = only_one 1 (pte_create 3 17) j (rw at at v') in
        rw (at, at')
          (record { here = refl; below = omega arith; used = refl; ne_null = omega arith });
    mapped = λ i j k li lj lk v.
        let (ei, ej, ek) = only_leaf i j k v in
        rw (ei, ej, ek)
          (record { here = refl; below = omega arith; used = refl; ne_null = omega arith });
    free_below = λ q f. ground arith;
    few = omega arith;
  };
}

pub four_pages-AreApart : AreApart kernel place
four_pages-AreApart q k = rw k refl
