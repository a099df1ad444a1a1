-- ===== src/Mm/Tables/Manager.antt =====
-- What the page tables rely on in the manager of the physical pages.
use os_lab.Base.{
  ◌<◌, ◌≤◌, ◌-◌, ◌^◌, ap, arith, Bool-cases, inl, inr, ◌==◌, ◌||◌, Ptr, null, ℕ, ◌≡◌, ◌≢◌, ◌⊎◌,
  Bool, true, false, if◌then◌else◌, update, Ends,
}
use os_lab.Mm.FirstFit.Defs.{FreeArea}
use os_lab.Mm.Tables.Defs.{PmmManager}
use os_lab.Mm.Tables.Tree.{without, IsAt, no_place, kernel_place}

abbrev pub with_ref : Ptr → ℕ → FreeArea → FreeArea
with_ref p n a = record a { pages = update a.pages p (record (a.pages p) { ref = n }) }

-- One page is handed out: it was free, no other page changes its state.
pub record Given (Sound : FreeArea → (Ptr → Bool) → Type 0) (a : FreeArea) (free : Ptr → Bool)
    (p : Ptr) (a' : FreeArea) : Type 0 where
  pub ne_null : p ≢ null
  pub was_free : free p ≡ true
  pub sound : Sound a' (without free p)
  pub refs : (q : Ptr) → (a'.pages q).ref ≡ (a.pages q).ref

-- `Sound a free`: the manager's state is sound, and the free pages are those of `free`.
pub record Gives (pmm : PmmManager) (Sound : FreeArea → (Ptr → Bool) → Type 0) : Type 0 where
  pub gives :
      (a : FreeArea) (free : Ptr → Bool)
      → Sound a free
      → Ends (pmm.alloc_pages 1 a) λ (p, a').
        ((p ≡ null) × (a' ≡ a) × ((q : Ptr) → free q ≡ false)) ⊎ Given Sound a free p a'
  pub keeps_ref :
      (a : FreeArea) (free : Ptr → Bool) (p n : ℕ) → Sound a free → Sound (with_ref p n a) free

-- The pages with one more.
abbrev pub with_page : (Ptr → Bool) → Ptr → Ptr → Bool
with_page free p q = (q == p) || free q

-- A page can be put in its place among the free ones: none is free, or one above it is.
abbrev pub Room : (Ptr → Bool) → Ptr → Type 0
Room free p = ((q : Ptr) → free q ≡ false) ⊎ ((top : Ptr) × (p < top) × (free top ≡ true))

-- One page that is in use, and is not the kernel's for good, is taken back, and counts no use.
pub record Takes (pmm : PmmManager) (Sound : FreeArea → (Ptr → Bool) → Type 0) (kernel : Ptr → Bool)
    : Type 0 where
  pub kernel_used :
      (a : FreeArea) (free : Ptr → Bool) (p : Ptr) → Sound a free → kernel p ≡ true → free p ≡ false
  pub takes :
      (a : FreeArea) (free : Ptr → Bool) (p : Ptr)
      → Sound a free
      → free p ≡ false
      → p ≢ null
      → kernel p ≡ false
      → p < 2 ^ 31
      → Room free p
      → Ends (pmm.free_pages p 1 a) λ a'.
        Sound a' (with_page free p)
        × ((q : Ptr) → (a'.pages q).ref ≡ (if q == p then 0 else (a.pages q).ref))

-- The kernel's pages have no place among the tables and what they map.
abbrev pub AreApart : (Ptr → Bool) → (Ptr → ℕ) → Type 0
AreApart kernel place = (q : Ptr) → kernel q ≡ true → place q ≡ kernel_place

module _ {npage : ℕ} {place : Ptr → ℕ} {free : Ptr → Bool} (p c : ℕ)
    (at : IsAt npage place free p c) where
  pub not_kernel : (kernel : Ptr → Bool) → AreApart kernel place → c ≤ no_place → kernel p ≡ false
  not_kernel kernel apart le = elim (Bool-cases (kernel p)) [
    | inl k ↦ absurd (omega (arith, at.here, apart p k))
    | inr k ↦ k
  ]

  -- Below the last page, which is free.
  pub used-Room : free (npage - 1) ≡ true → Room free p
  used-Room top =
      let ne : p ≢ npage - 1 = λ e. absurd (ground (arith, at.used, top, ap free e)) in
      inr (npage - 1, omega (arith, at.below, ne), top)
