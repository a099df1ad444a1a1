-- ===== src/Mm/Tables/GetPage.antt =====
-- `get_page`: the page that an address is mapped to, also after `page_insert` and `page_remove`.
use os_lab.Base.{
  Ptr, null, ℕ, ◌<◌, ◌≡◌, ==_ne, Bool, true, Bool-cases, inl, inr, if◌then◌else◌, refl, arith, ltb,
  Ends,
}
use os_lab.Mm.FirstFit.Defs.{FreeArea}
use os_lab.Mm.Tables.Defs.{
  PmmManager, Memory, null_slot, is_valid, pte2page, pdx1, pdx0, ptx, get_page,
}
use os_lab.Mm.Tables.Enter.{IsMemory}
use os_lab.Mm.Tables.GetPte.{pte_of}
use os_lab.Mm.Tables.Leaf.{slot-IsAt, word_at-pte_of}
use os_lab.Mm.Tables.Read.{get_pte_reads}

-- The page that the tables map the address to, or NULL.
abbrev pub page_of : (Ptr → ℕ → ℕ) → (r la : ℕ) → Ptr
page_of w r la = if is_valid (pte_of w r la) then pte2page (pte_of w r la) else null

module _ (pmm : PmmManager) (Sound : FreeArea → (Ptr → Bool) → Type 0) where
  pub get_page_lem :
      (m : Memory) (r : Ptr) (place : Ptr → ℕ) (free : Ptr → Bool) (la : ℕ)
      → pdx1 la < 511
      → IsMemory Sound m r place free
      → Ends (get_page pmm r la m) λ (page, e, m'). (page ≡ page_of m.words r la) × (m' ≡ m)
  unfolding get_page
  get_page_lem m r place free la user is =
      let ((e, m0), run, (same, found)) = get_pte_reads pmm Sound m r place free is la user in
      elim found [
        | inl (nil, out) ↦
            rw (run, same, nil, out (ptx la)) ((null, null_slot, m), refl, (refl, refl))
        | inr s ↦
            let there = ==_ne e.page null (slot-IsAt is.tree la e s).ne_null in
            let word = word_at-pte_of is.tree la e s in
            elim (Bool-cases (is_valid (pte_of m.words r la))) [
              | inr out ↦ rw (run, same, there, word, out) ((null, e, m), refl, (refl, refl))
              | inl v ↦
                  let a =
                    is.tree.mapped (pdx1 la) (pdx0 la) (ptx la) user (omega arith) (omega arith)
                      v in
                  let below : ltb (pte2page (pte_of m.words r la)) m.npage ≡ true =
                    ground (arith, a.below) in
                  rw (run, same, there, word, v, below) ((_, e, m), refl, (refl, refl))
            ]
      ]
