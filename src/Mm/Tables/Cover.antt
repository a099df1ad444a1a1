-- ===== src/Mm/Tables/Cover.antt =====
-- The addresses of the entries of the page tables, and those of a range.
use os_lab.Base.{
  ℕ, ◌+◌, ◌-◌, ◌*◌, ◌%◌, ◌^◌, ◌<◌, ◌≤◌, ◌≡◌, Bool, ◌&&◌, Bool-cases, inl, inr, ltb, leb, refl,
  arith,
}
use os_lab.Mm.Tables.Defs.{pdx1, pdx0, ptx}
use os_lab.Mm.Tables.Leaf.{hits, hits_indices}

abbrev pub address : (i j k : ℕ) → ℕ
address i j k = ((i * 512 + j) * 512 + k) * 4096

abbrev pub covers : (lo hi i j k : ℕ) → Bool
covers lo hi i j k = leb lo (address i j k) && ltb (address i j k) hi

pub indices-address :
    (la i j k : ℕ)
    → la < 2 ^ 39
    → la % 4096 ≡ 0
    → i ≡ pdx1 la
    → j ≡ pdx0 la
    → k ≡ ptx la
    → address i j k ≡ la
indices-address la i j k lt page ei ej ek = omega arith

pub address-indices :
    (la i j k : ℕ)
    → la % 4096 ≡ 0
    → i < 511
    → j < 512
    → k < 512
    → la ≤ address i j k
    → address i j k < la + 4096
    → (i ≡ pdx1 la) × (j ≡ pdx0 la) × (k ≡ ptx la)
address-indices la i j k page li lj lk lo hi =
    let e : address i j k ≡ la = omega arith in (omega arith, omega arith, omega arith)

pub covers-hits :
    (la i j k : ℕ)
    → la < 2 ^ 39
    → la % 4096 ≡ 0
    → i < 511
    → j < 512
    → k < 512
    → covers la (la + 4096) i j k ≡ hits la i j k
covers-hits la i j k lt page li lj lk = elim (Bool-cases (hits la i j k)) [
  | inl h ↦
      let (ei, ej, ek) = hits_indices la i j k h in
      let e = indices-address la i j k lt page ei ej ek in ground arith
  | inr h ↦ elim (Bool-cases (covers la (la + 4096) i j k)) [
    | inl c ↦
        let (ei, ej, ek) =
          address-indices la i j k page li lj lk (ground (arith, c)) (ground (arith, c)) in
        ground arith
    | inr c ↦ rw (c, h) refl
  ]
]

-- A table has the addresses up to the next one.
pub address-table :
    (la i j k : ℕ)
    → la % 4096 ≡ 0
    → la < 2 ^ 39
    → i < 511
    → j < 512
    → k < 512
    → la ≤ address i j k
    → address i j k < la + 2 ^ 21 - (la + 2 ^ 21) % 2 ^ 21
    → (i ≡ pdx1 la) × (j ≡ pdx0 la)
address-table la i j k page lt li lj lk lo up = (omega arith, omega arith)
