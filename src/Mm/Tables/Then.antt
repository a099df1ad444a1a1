-- ===== src/Mm/Tables/Then.antt =====
-- Unmapping a range of addresses in two parts.
use os_lab.Base.{
  Ptr, ℕ, ◌<◌, ◌≤◌, ◌≡◌, ◌==◌, Bool, true, false, ◌&&◌, Bool-cases, inl, inr, if◌then◌else◌, refl,
  arith, ap, sym, ◌∙◌,
}
use os_lab.Mm.FirstFit.Defs.{FreeArea}
use os_lab.Mm.Tables.Defs.{Memory, is_valid, pte2page, page_ref}
use os_lab.Mm.Tables.Tree.{leaf}
use os_lab.Mm.Tables.Enter.{IsMemory}
use os_lab.Mm.Tables.Leaf.{same_place}
use os_lab.Mm.Tables.Remove.{one_less}
use os_lab.Mm.Tables.Cover.{address, covers}
use os_lab.Mm.Tables.Unmapped.{NotMapped, Unmapped}

module _ {Sound : FreeArea → (Ptr → Bool) → Type 0} (m : Memory) {r : Ptr} {place : Ptr → ℕ}
    {free : Ptr → Bool} (is : IsMemory Sound m r place free) (lo mid hi : ℕ) (le : lo ≤ mid)
    (le' : mid ≤ hi) (m1 : Memory) (a : Unmapped Sound m r place free lo mid m1) (m2 : Memory)
    (b : Unmapped Sound m1 r place a.free' mid hi m2) where
  -- Two pages of the tables are mapped at the same address.
  same_address :
      (i j k i' j' k' : ℕ)
      → i < 511
      → j < 512
      → k < 512
      → i' < 511
      → j' < 512
      → k' < 512
      → is_valid (leaf m.words r i j k) ≡ true
      → is_valid (leaf m.words r i' j' k') ≡ true
      → pte2page (leaf m.words r i' j' k') ≡ pte2page (leaf m.words r i j k)
      → address i j k ≡ address i' j' k'
  same_address i j k i' j' k' li lj lk li' lj' lk' v v' e =
      let here = (is.tree.mapped i j k li lj lk v).here in
      let there = (is.tree.mapped i' j' k' li' lj' lk' v').here in
      let (ei, ej, ek) =
        same_place i' j' k' i j k lj' lk' lj lk (sym here ∙ sym (ap place e) ∙ there) in
      omega arith

  kept_leaf :
      (i j k : ℕ)
      → i < 511
      → j < 512
      → k < 512
      → covers mid hi i j k ≡ true
      → leaf m1.words r i j k ≡ leaf m.words r i j k
  kept_leaf i j k li lj lk c =
      let out : covers lo mid i j k ≡ false = ground arith in a.leaves i j k li lj lk ∙ rw out refl

  after_both :
      (i j k : ℕ)
      → i < 511
      → j < 512
      → k < 512
      → leaf m2.words r i j k ≡ (
          if covers lo hi i j k && is_valid (leaf m.words r i j k) then 0 else leaf m.words r i j k)
  after_both i j k li lj lk = elim (Bool-cases (covers mid hi i j k)) [
    | inl c ↦
        let whole : covers lo hi i j k ≡ true = ground arith in
        b.leaves i j k li lj lk ∙ rw (c, whole, kept_leaf i j k li lj lk c) refl
    | inr c ↦
        let whole : covers lo hi i j k ≡ covers lo mid i j k = ground arith in
        b.leaves i j k li lj lk ∙ rw (c, whole) (a.leaves i j k li lj lk)
  ]

  -- A page of the first range has no address in the second, and the other way round.
  not_second :
      (i j k : ℕ)
      → i < 511
      → j < 512
      → k < 512
      → covers lo mid i j k ≡ true
      → is_valid (leaf m.words r i j k) ≡ true
      → NotMapped m1.words r mid hi (pte2page (leaf m.words r i j k))
  not_second i j k li lj lk c v i' j' k' li' lj' lk' c' v' e =
      let kept = kept_leaf i' j' k' li' lj' lk' c' in
      let same =
        same_address i j k i' j' k' li lj lk li' lj' lk' v (rw kept at v') (rw kept at e) in
      absurd (ground (arith, c, c', same))

  not_first :
      (i j k : ℕ)
      → i < 511
      → j < 512
      → k < 512
      → covers mid hi i j k ≡ true
      → is_valid (leaf m.words r i j k) ≡ true
      → NotMapped m.words r lo mid (pte2page (leaf m.words r i j k))
  not_first i j k li lj lk c v i' j' k' li' lj' lk' c' v' e =
      let same = same_address i j k i' j' k' li lj lk li' lj' lk' v v' e in
      absurd (ground (arith, c, c', same))

  not_left : (q : Ptr) → NotMapped m.words r lo hi q → NotMapped m.words r lo mid q
  not_left q n i j k li lj lk c v = n i j k li lj lk (ground arith) v

  not_right : (q : Ptr) → NotMapped m.words r lo hi q → NotMapped m1.words r mid hi q
  not_right q n i j k li lj lk c v =
      let kept = kept_leaf i j k li lj lk c in
      rw kept (n i j k li lj lk (ground arith) (rw kept at v))

  module _ (i j k : ℕ) (li : i < 511) (lj : j < 512) (lk : k < 512) (c : covers lo hi i j k ≡ true)
      (v : is_valid (leaf m.words r i j k) ≡ true) where
    abbrev q : Ptr
    q = pte2page (leaf m.words r i j k)

    both : (page_ref q m2 ≡ one_less (page_ref q m)) × (b.free' q ≡ (one_less (page_ref q m) == 0))
    both = elim (Bool-cases (covers mid hi i j k)) [
      | inl c' ↦
          let kept = kept_leaf i j k li lj lk c' in
          let n = not_first i j k li lj lk c' v in
          let v' : is_valid (leaf m1.words r i j k) ≡ true = rw kept v in
          (
            rw kept at (b.less_ref i j k li lj lk c' v') ∙ ap one_less (a.same_ref q n),
            rw kept at (b.freed i j k li lj lk c' v') ∙ ap (λ x. one_less x == 0) (a.same_ref q n),
          )
      | inr c' ↦
          let c'' : covers lo mid i j k ≡ true = ground arith in
          let n = not_second i j k li lj lk c'' v in
          (
            b.same_ref q n ∙ a.less_ref i j k li lj lk c'' v,
            b.same_free q n ∙ a.freed i j k li lj lk c'' v,
          )
    ]

  pub Unmapped-then : Unmapped Sound m r place free lo hi m2
  Unmapped-then = record {
    free' = b.free';
    memory = b.memory;
    leaves = after_both;
    less_ref = λ i j k li lj lk c v. (both i j k li lj lk c v).0;
    freed = λ i j k li lj lk c v. (both i j k li lj lk c v).1;
    same_ref = λ q n. b.same_ref q (not_right q n) ∙ a.same_ref q (not_left q n);
    same_free = λ q n. b.same_free q (not_right q n) ∙ a.same_free q (not_left q n);
    same_npage = b.same_npage ∙ a.same_npage;
    still_free = λ q f. b.still_free q (a.still_free q f);
  }
