-- ===== src/Mm/Tables/Read.antt =====
-- `get_pte` when it may not create tables.
use os_lab.Base.{
  Ptr, ℕ, ◌<◌, ◌≡◌, ◌⊎◌, Bool, true, false, Bool-cases, inl, inr, refl, arith, Ends, ltb,
}
use os_lab.Mm.FirstFit.Defs.{FreeArea}
use os_lab.Mm.Tables.Defs.{
  PmmManager, Memory, null_slot, is_valid, pte2page, pdx1, pdx0, enter, get_pte,
}
use os_lab.Mm.Tables.Tree.{leaf}
use os_lab.Mm.Tables.Enter.{IsMemory}
use os_lab.Mm.Tables.GetPte.{IsSlot}

module _ (pmm : PmmManager) (Sound : FreeArea → (Ptr → Bool) → Type 0) (m : Memory) (r : Ptr)
    (place : Ptr → ℕ) (free : Ptr → Bool) (is : IsMemory Sound m r place free) (la : ℕ)
    (user : pdx1 la < 511) where
  -- Without `create`, nothing changes.
  pub get_pte_reads : Ends (get_pte pmm r la false m) λ (e, m').
      (m' ≡ m)
      × (((e ≡ null_slot) × ((k : ℕ) → leaf m.words r (pdx1 la) (pdx0 la) k ≡ 0))
          ⊎ IsSlot m.words r la e)
  unfolding get_pte enter
  get_pte_reads = elim (Bool-cases (is_valid (m.words r (pdx1 la)))) [
    | inr out ↦ rw out ((null_slot, m), refl, (refl, inl (refl, λ k'. refl)))
    | inl v ↦
        let a = is.tree.mid (pdx1 la) user v in
        let lt : ltb (pte2page (m.words r (pdx1 la))) m.npage ≡ true = ground (arith, a.below) in
        elim (Bool-cases (is_valid (m.words (pte2page (m.words r (pdx1 la))) (pdx0 la)))) [
          | inr out ↦ rw (v, lt, out) ((null_slot, m), refl, (refl, inl (refl, λ k'. refl)))
          | inl v' ↦
              let b = is.tree.low (pdx1 la) (pdx0 la) user (omega arith) v v' in
              let lt' : ltb (pte2page (m.words (pte2page (m.words r (pdx1 la))) (pdx0 la))) m.npage
                  ≡ true =
                ground (arith, b.below) in
              rw (v, lt, v', lt')
                (
                  _,
                  refl,
                  (
                    refl,
                    inr (record {
                      mid_valid = v;
                      low_valid = v';
                      page_is = refl;
                      index_is = refl;
                      user = user;
                    }),
                  ),
                )
        ]
  ]
