-- ===== src/Mm/Tables/Unmapped.antt =====
-- What unmapping a range of addresses leaves, and that two ranges one after the other make one.
use os_lab.Base.{
  Ptr, ℕ, ◌+◌, ◌%◌, ◌^◌, ◌<◌, ◌≡◌, ◌≢◌, ◌==◌, ==_ne, ==_refl, Bool, true, false, ◌&&◌, Bool-cases,
  inl, inr, if◌then◌else◌, refl, arith, sym, ◌∙◌,
}
use os_lab.Mm.FirstFit.Defs.{FreeArea}
use os_lab.Mm.Tables.Defs.{Memory, is_valid, pte2page, pdx1, pdx0, ptx, page_ref}
use os_lab.Mm.Tables.Tree.{or_false, leaf}
use os_lab.Mm.Tables.Enter.{IsMemory}
use os_lab.Mm.Tables.GetPte.{pte_of}
use os_lab.Mm.Tables.Leaf.{hits, hits_indices}
use os_lab.Mm.Tables.Remove.{one_less, Removed}
use os_lab.Mm.Tables.Cover.{covers, covers-hits, indices-address}

-- No address of the range is mapped to the page.
abbrev pub NotMapped : (Ptr → ℕ → ℕ) → (r lo hi q : ℕ) → Type 0
NotMapped w r lo hi q =
    (i j k : ℕ)
    → i < 511
    → j < 512
    → k < 512
    → covers lo hi i j k ≡ true
    → is_valid (leaf w r i j k) ≡ true
    → pte2page (leaf w r i j k) ≢ q

-- The pages of the range are mapped no longer and count one use less; one that has no use left is
-- free. Everything else is as it was.
pub record Unmapped (Sound : FreeArea → (Ptr → Bool) → Type 0) (m : Memory) (r : Ptr)
    (place : Ptr → ℕ) (free : Ptr → Bool) (lo hi : ℕ) (m' : Memory) : Type 0 where
  pub free' : Ptr → Bool
  pub memory : IsMemory Sound m' r place free'
  pub leaves :
      (i j k : ℕ)
      → i < 511
      → j < 512
      → k < 512
      → leaf m'.words r i j k ≡ (
          if covers lo hi i j k && is_valid (leaf m.words r i j k) then 0 else leaf m.words r i j k)
  pub less_ref :
      (i j k : ℕ)
      → i < 511
      → j < 512
      → k < 512
      → covers lo hi i j k ≡ true
      → is_valid (leaf m.words r i j k) ≡ true
      → page_ref (pte2page (leaf m.words r i j k)) m'
        ≡ one_less (page_ref (pte2page (leaf m.words r i j k)) m)
  pub freed :
      (i j k : ℕ)
      → i < 511
      → j < 512
      → k < 512
      → covers lo hi i j k ≡ true
      → is_valid (leaf m.words r i j k) ≡ true
      → free' (pte2page (leaf m.words r i j k))
        ≡ (one_less (page_ref (pte2page (leaf m.words r i j k)) m) == 0)
  pub same_ref : (q : Ptr) → NotMapped m.words r lo hi q → page_ref q m' ≡ page_ref q m
  pub same_free : (q : Ptr) → NotMapped m.words r lo hi q → free' q ≡ free q
  pub same_npage : m'.npage ≡ m.npage
  pub still_free : (q : Ptr) → free q ≡ true → free' q ≡ true

module _ (Sound : FreeArea → (Ptr → Bool) → Type 0) (m : Memory) (r : Ptr) (place : Ptr → ℕ)
    (free : Ptr → Bool) (is : IsMemory Sound m r place free) where
  pub Unmapped-nothing :
      (lo hi : ℕ)
      → ((i j k : ℕ)
          → i < 511
          → j < 512
          → k < 512
          → covers lo hi i j k ≡ true
          → is_valid (leaf m.words r i j k) ≡ false)
      → Unmapped Sound m r place free lo hi m
  Unmapped-nothing lo hi out = record {
    free' = free;
    memory = is;
    leaves = λ i j k li lj lk. elim (Bool-cases (covers lo hi i j k)) [
      | inl c ↦ rw (c, out i j k li lj lk c) refl
      | inr c ↦ rw c refl
    ];
    less_ref = λ i j k li lj lk c v. absurd (ground (arith, out i j k li lj lk c));
    freed = λ i j k li lj lk c v. absurd (ground (arith, out i j k li lj lk c));
    same_ref = λ q n. refl;
    same_free = λ q n. refl;
    same_npage = refl;
    still_free = λ q f. f;
  }

  leaf_here : (la i j k : ℕ) → hits la i j k ≡ true → leaf m.words r i j k ≡ pte_of m.words r la
  leaf_here la i j k h = let (ei, ej, ek) = hits_indices la i j k h in rw (ei, ej, ek) refl

  after :
      (la i j k : ℕ)
      → (if is_valid (pte_of m.words r la) && hits la i j k then 0 else leaf m.words r i j k)
        ≡ (if hits la i j k && is_valid (leaf m.words r i j k) then 0 else leaf m.words r i j k)
  after la i j k = elim (Bool-cases (hits la i j k)) [
    | inl h ↦ elim (Bool-cases (is_valid (pte_of m.words r la))) [
      | inl v ↦ rw (leaf_here la i j k h, h, v) refl
      | inr out ↦ rw (leaf_here la i j k h, h, out) refl
    ]
    | inr h ↦ elim (Bool-cases (is_valid (pte_of m.words r la))) [
      | inl v ↦ rw (h, v) refl
      | inr out ↦ rw (h, out) refl
    ]
  ]

  pub Removed-Unmapped :
      (la : ℕ) (m' : Memory)
      → la < 2 ^ 39
      → pdx1 la < 511
      → la % 4096 ≡ 0
      → Removed Sound m r place free la m'
      → Unmapped Sound m r place free la (la + 4096) m'
  Removed-Unmapped la m' lt user page done =
      let here = indices-address la (pdx1 la) (pdx0 la) (ptx la) lt page refl refl refl in
      let in_here : covers la (la + 4096) (pdx1 la) (pdx0 la) (ptx la) ≡ true =
        ground (arith, here) in
      record {
        free' = done.free';
        memory = done.memory;
        leaves = λ i j k li lj lk.
            done.leaves i j k li lj lk
            ∙ rw (covers-hits la i j k lt page li lj lk) (after la i j k);
        less_ref = λ i j k li lj lk c v.
            let h = sym (covers-hits la i j k lt page li lj lk) ∙ c in
            let e = leaf_here la i j k h in
            let v' : is_valid (pte_of m.words r la) ≡ true = rw e at v in
            rw e (
              done.refs (pte2page (pte_of m.words r la))
              ∙ rw (v', ==_refl (pte2page (pte_of m.words r la))) refl);
        freed = λ i j k li lj lk c v.
            let h = sym (covers-hits la i j k lt page li lj lk) ∙ c in
            let e = leaf_here la i j k h in
            let v' : is_valid (pte_of m.words r la) ≡ true = rw e at v in
            let used : free (pte2page (pte_of m.words r la)) ≡ false =
              rw e at ((is.tree.mapped i j k li lj lk v).used) in
            rw e (
              done.given_back (pte2page (pte_of m.words r la))
              ∙ rw (v', ==_refl (pte2page (pte_of m.words r la)), used) (or_false _));
        same_ref = λ q n. done.refs q ∙ elim (Bool-cases (is_valid (pte_of m.words r la))) [
          | inl v ↦
              rw
                (
                  v,
                  ==_ne q (pte2page (pte_of m.words r la)) (λ e.
                      n (pdx1 la) (pdx0 la) (ptx la) user (omega arith) (omega arith) in_here v
                        (sym e)),
                )
                refl
          | inr out ↦ rw out refl
        ];
        same_free = λ q n. done.given_back q ∙ elim (Bool-cases (is_valid (pte_of m.words r la))) [
          | inl v ↦
              rw
                (
                  v,
                  ==_ne q (pte2page (pte_of m.words r la)) (λ e.
                      n (pdx1 la) (pdx0 la) (ptx la) user (omega arith) (omega arith) in_here v
                        (sym e)),
                )
                refl
          | inr out ↦ rw out refl
        ];
        same_npage = done.same_npage;
        still_free = λ q f. done.given_back q ∙ rw f (ground arith);
      }
