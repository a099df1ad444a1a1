-- ===== src/Mm/Tables/Tree.antt =====
-- Page tables as a tree: every table has one place in it, so no two entries lead to the same table.
use os_lab.Base.{
  Ptr, null, ℕ, suc, ◌+◌, ◌*◌, ◌^◌, ◌<◌, ◌≤◌, ◌≡◌, ◌≢◌, ◌==◌, Bool, true, false, not, ◌&&◌, ◌||◌,
  if◌then◌else◌, update, refl, arith, ap, sym, ◌∙◌,
}
use os_lab.Mm.Tables.Defs.{is_valid, pte2page, pte_create}

pub or_false : (b : Bool) → (b || false) ≡ b
or_false true = refl
or_false false = refl

-- The entry for the page with the indices i, j and k, or 0 if a table for it is missing.
abbrev pub leaf : (Ptr → ℕ → ℕ) → Ptr → (i j k : ℕ) → ℕ
leaf w r i j k =
    if is_valid (w r i)
    then (if is_valid (w (pte2page (w r i)) j) then w (pte2page (w (pte2page (w r i)) j)) k else 0)
    else 0

-- The places: 0 is the root, then 512 tables below it, then 512 below each of those, then the 512
-- pages that each of these maps, and a page in use that the tables do not have. The last gigabyte, where
-- entry 511 of the root alone maps the kernel, has no place.
abbrev pub mid_place : ℕ → ℕ
mid_place i = suc i

abbrev pub low_place : ℕ → ℕ → ℕ
low_place i j = 513 + (i * 512 + j)

abbrev pub data_place : (i j k : ℕ) → ℕ
data_place i j k = 262657 + ((i * 512 + j) * 512 + k)

abbrev pub no_place : ℕ
no_place = 134480385

-- The place of the pages that are never taken back.
abbrev pub kernel_place : ℕ
kernel_place = 134480386

-- The page is in use, at this place.
pub record IsAt (npage : ℕ) (place : Ptr → ℕ) (free : Ptr → Bool) (p : Ptr) (c : ℕ) : Type 0 where
  pub here : place p ≡ c
  pub below : p < npage
  pub used : free p ≡ false
  pub ne_null : p ≢ null

pub record IsTree (w : Ptr → ℕ → ℕ) (npage : ℕ) (r : Ptr) (place : Ptr → ℕ) (free : Ptr → Bool)
    : Type 0 where
  pub root : IsAt npage place free r 0
  pub mid :
      (i : ℕ)
      → i < 511
      → is_valid (w r i) ≡ true
      → IsAt npage place free (pte2page (w r i)) (mid_place i)
  pub low :
      (i j : ℕ)
      → i < 511
      → j < 512
      → is_valid (w r i) ≡ true
      → is_valid (w (pte2page (w r i)) j) ≡ true
      → IsAt npage place free (pte2page (w (pte2page (w r i)) j)) (low_place i j)
  pub mapped :
      (i j k : ℕ)
      → i < 511
      → j < 512
      → k < 512
      → is_valid (leaf w r i j k) ≡ true
      → IsAt npage place free (pte2page (leaf w r i j k)) (data_place i j k)
  pub free_below : (q : Ptr) → free q ≡ true → q < npage
  pub few : npage ≤ 2 ^ 31

-- The free pages without one.
abbrev pub without : (Ptr → Bool) → Ptr → Ptr → Bool
without free p q = free q && not (q == p)

pub pte2page-pte_create : (p n : ℕ) → p < 2 ^ 44 → n < 1024 → pte2page (pte_create p n) ≡ p
pte2page-pte_create p n lt lt' = omega arith

pub is_valid-pte_create : (p n : ℕ) → p < 2 ^ 44 → n < 1024 → is_valid (pte_create p n) ≡ true
is_valid-pte_create p n lt lt' = ground arith

pub IsAt-new :
    (npage : ℕ) (place : Ptr → ℕ) (free : Ptr → Bool) (p : Ptr) (d : ℕ)
    → p ≢ null
    → p < npage
    → IsAt npage (update place p d) (without free p) p d
IsAt-new npage place free p d ne lt = record {
  here = ground arith;
  below = lt;
  used = ground arith;
  ne_null = ne;
}

module _ {npage : ℕ} {place : Ptr → ℕ} {free : Ptr → Bool} where
  -- A page in use keeps its place when a free page gets one.
  pub IsAt-without :
      (p q : Ptr) (c d : ℕ)
      → free p ≡ true
      → IsAt npage place free q c
      → IsAt npage (update place p d) (without free p) q c
  IsAt-without p q c d f a = record {
    here = ground (arith, a.here, a.used);
    below = a.below;
    used = ground (arith, a.used);
    ne_null = a.ne_null;
  }

  pub IsAt_ne :
      (p q : Ptr) (c d : ℕ) → IsAt npage place free p c → IsAt npage place free q d → c ≢ d → p ≢ q
  IsAt_ne p q c d a b ne e = ne (sym a.here ∙ (ap place e ∙ b.here))

  pub fresh_ne : (p q : Ptr) (c : ℕ) → free p ≡ true → IsAt npage place free q c → q ≢ p
  fresh_ne p q c f a e = ground (arith, a.used)
