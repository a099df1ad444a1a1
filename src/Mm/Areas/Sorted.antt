-- ===== src/Mm/Areas/Sorted.antt =====
-- The areas of a space as a sequence: sorted by their addresses, and apart from each other.
use os_lab.Base.{
  Ptr, null, ℕ, ◌<◌, ◌≤◌, ◌≡◌, ◌≢◌, ◌⊎◌, Bool, Bool-cases, inl, inr, true, false, ◌&&◌, ◌||◌, leb,
  List, [], ◌∷◌, has, length, refl, arith, if◌then◌else◌,
}
use os_lab.Libs.Links.Ring.{Ring}
use os_lab.Mm.Areas.Defs.{Vma, Spaces, contains}

abbrev pub Areas : (Ptr → Vma) → ℕ → List Ptr → Type 0
Areas vmas lo [] = Unit {0}
Areas vmas lo (x ∷ xs) =
    (lo ≤ (vmas x).vm_start) × ((vmas x).vm_start < (vmas x).vm_end) × Areas vmas (vmas x).vm_end xs

-- The areas of the space `mm` are `xs`.
pub record IsSpace (s : Spaces) (mm : Ptr) (xs : List Ptr) : Type 0 where
  pub ring : Ring s.mmap_links mm xs
  pub areas : Areas s.vmas 0 xs
  pub counted : (s.mms mm).map_count ≡ length xs
  pub no_null : has null xs ≡ false
  pub cached : ((s.mms mm).mmap_cache ≡ null) ⊎ (has (s.mms mm).mmap_cache xs ≡ true)

-- The area that holds the address, or NULL.
abbrev pub area_of : (Ptr → Vma) → ℕ → List Ptr → Ptr
area_of vmas addr [] = null
area_of vmas addr (x ∷ xs) = if contains (vmas x) addr then x else area_of vmas addr xs

-- No area of the sequence meets the addresses from `from` to `to`.
abbrev pub is_clear : (Ptr → Vma) → (from to : ℕ) → List Ptr → Bool
is_clear vmas from to [] = true
is_clear vmas from to (x ∷ xs) =
    (leb to (vmas x).vm_start || leb (vmas x).vm_end from) && is_clear vmas from to xs

module _ (f : Ptr → Vma) where
  pub Areas-lower :
      (lo : ℕ) (xs : List Ptr) (q : Ptr)
      → Areas f lo xs
      → has q xs ≡ true
      → (lo ≤ (f q).vm_start) × ((f q).vm_start < (f q).vm_end)
  Areas-lower lo [] q a i = ground arith
  Areas-lower lo (x ∷ xs) q a i = ground (arith, a.0, a.1, Areas-lower (f x).vm_end xs q a.2)

  -- An address is in one area at most.
  pub area_of-member :
      (lo addr : ℕ) (xs : List Ptr) (q : Ptr)
      → Areas f lo xs
      → has q xs ≡ true
      → contains (f q) addr ≡ true
      → area_of f addr xs ≡ q
  area_of-member lo addr [] q a i c = ground arith
  area_of-member lo addr (x ∷ xs) q a i c =
      ground (arith, Areas-lower (f x).vm_end xs q a.2, area_of-member (f x).vm_end addr xs q a.2)

  pub has-area_of :
      (addr : ℕ) (xs : List Ptr) → area_of f addr xs ≢ null → has (area_of f addr xs) xs ≡ true
  has-area_of addr [] ne = absurd (ne refl)
  has-area_of addr (x ∷ xs) ne = ground (arith, has-area_of addr xs)

  pub contains-area_of :
      (addr : ℕ) (xs : List Ptr)
      → area_of f addr xs ≢ null
      → contains (f (area_of f addr xs)) addr ≡ true
  contains-area_of addr [] ne = absurd (ne refl)
  contains-area_of addr (x ∷ xs) ne = elim (Bool-cases (contains (f x) addr)) [
    | inl e ↦ rw e e
    | inr e ↦ rw e (contains-area_of addr xs (rw e at ne))
  ]
