-- ===== src/Base/Lists.antt =====
-- Lists of addresses: length, membership as a test, distinctness, removal.
use Prim.Native.Nat.{ℕ, suc, ◌+◌}
use mathlib.Core.Path.{◌≡◌, refl, ap}
use mathlib.Core.Bool.{Bool, true, false, ◌||◌}
use mathlib.Core.Logic.{inl, inr}
use mathlib.Core.List.{List, [], ◌∷◌, ◌++◌}
use native.Mathlib.Omega.{arith}
use os_lab.Base.Tests.{◌==◌, if◌then◌else◌, Bool-cases}

module _ {ℓ} {A : Type ℓ} where
  abbrev pub length : List A → ℕ
  length [] = 0
  length (x ∷ xs) = suc (length xs)

  pub length-append : (xs ys : List A) → length (xs ++ ys) ≡ length xs + length ys
  length-append [] ys = omega arith
  length-append (x ∷ xs) ys = omega (arith, length-append xs ys)

abbrev pub has : ℕ → List ℕ → Bool
has a [] = false
has a (x ∷ xs) = (a == x) || has a xs

abbrev pub Distinct : List ℕ → Type 0
Distinct [] = Unit {0}
Distinct (x ∷ xs) = (has x xs ≡ false) × Distinct xs

-- The first occurrence is dropped.
abbrev pub erase : ℕ → List ℕ → List ℕ
erase a [] = []
erase a (x ∷ xs) = if a == x then xs else x ∷ erase a xs

-- The last address of `a ∷ xs`, and the first of `xs ++ b ∷ []`.
abbrev pub last_or : ℕ → List ℕ → ℕ
last_or a [] = a
last_or a (x ∷ xs) = last_or x xs

abbrev pub head_or : ℕ → List ℕ → ℕ
head_or b [] = b
head_or b (x ∷ xs) = x

pub has-append : (a : ℕ) (xs ys : List ℕ) → has a (xs ++ ys) ≡ (has a xs || has a ys)
has-append a [] ys = refl
has-append a (x ∷ xs) ys = ground (arith, has-append a xs ys)

pub has-last_or : (a : ℕ) (xs : List ℕ) → has (last_or a xs) (a ∷ xs) ≡ true
has-last_or a [] = ground arith
has-last_or a (x ∷ xs) = ground (arith, has-last_or x xs)

pub has-erase :
    (a e : ℕ) (xs : List ℕ)
    → Distinct xs
    → has a (erase e xs) ≡ (if a == e then false else has a xs)
has-erase a e [] d = ground arith
has-erase a e (x ∷ xs) d = ground (arith, has-erase a e xs d.1)

pub Distinct-erase : (e : ℕ) (xs : List ℕ) → Distinct xs → Distinct (erase e xs)
Distinct-erase e [] d = tt
Distinct-erase e (x ∷ xs) d = ground (arith, has-erase x e xs d.1, Distinct-erase e xs d.1)

pub length-erase : (e : ℕ) (xs : List ℕ) → has e xs ≡ true → suc (length (erase e xs)) ≡ length xs
length-erase e [] h = ground arith
length-erase e (x ∷ xs) h = ground (arith, length-erase e xs)

pub Distinct-snoc : (xs : List ℕ) (e : ℕ) → Distinct xs → has e xs ≡ false → Distinct (xs ++ e ∷ [])
Distinct-snoc [] e d h = (refl, tt)
Distinct-snoc (x ∷ xs) e d h = ground (arith, has-append x xs (e ∷ []), Distinct-snoc xs e d.1)

pub erase-append : (e : ℕ) (xs ys : List ℕ) → has e xs ≡ false → erase e (xs ++ e ∷ ys) ≡ xs ++ ys
erase-append e [] ys h = ground arith
erase-append e (x ∷ xs) ys h = ground (arith, erase-append e xs ys)

-- A distinct list in two parts.
pub Distinct-apart :
    (xs ys : List ℕ) (a : ℕ) → Distinct (xs ++ ys) → has a xs ≡ true → has a ys ≡ false
Distinct-apart [] ys a d h = ground arith
Distinct-apart (x ∷ xs) ys a d h = ground (arith, has-append x xs ys, Distinct-apart xs ys a d.1)

pub Distinct-left : (xs ys : List ℕ) → Distinct (xs ++ ys) → Distinct xs
Distinct-left [] ys d = tt
Distinct-left (x ∷ xs) ys d = ground (arith, has-append x xs ys, Distinct-left xs ys d.1)

pub Distinct-right : (xs ys : List ℕ) → Distinct (xs ++ ys) → Distinct ys
Distinct-right [] ys d = d
Distinct-right (x ∷ xs) ys d = Distinct-right xs ys d.1

pub Distinct-insert :
    (xs : List ℕ) (e : ℕ) (ys : List ℕ)
    → Distinct (xs ++ ys)
    → has e (xs ++ ys) ≡ false
    → Distinct (xs ++ e ∷ ys)
Distinct-insert [] e ys d h = (h, d)
Distinct-insert (x ∷ xs) e ys d h =
    ground (arith, has-append x xs ys, has-append x xs (e ∷ ys), Distinct-insert xs e ys d.1)

pub Distinct-remove :
    (xs : List ℕ) (e : ℕ) (ys : List ℕ)
    → Distinct (xs ++ e ∷ ys)
    → Distinct (xs ++ ys) × (has e (xs ++ ys) ≡ false)
Distinct-remove [] e ys d = (d.1, d.0)
Distinct-remove (x ∷ xs) e ys d =
    ground (arith, has-append x xs ys, has-append x xs (e ∷ ys), Distinct-remove xs e ys d.1)

-- A member stands between two parts of the list.
pub split_at :
    (e : ℕ) (xs : List ℕ)
    → has e xs ≡ true
    → (front : List ℕ) × (back : List ℕ) × (xs ≡ front ++ e ∷ back) × (has e front ≡ false)
split_at e [] h = ground arith
split_at e (x ∷ xs) h = elim (Bool-cases (e == x)) [
  | inl same ↦ ([], xs, ground arith, refl)
  | inr other ↦
      let (front, back, eq, out) = split_at e xs (ground arith) in
      (x ∷ front, back, ap (◌∷◌ x) eq, ground arith)
]

pub append_assoc : (xs ys zs : List ℕ) → (xs ++ ys) ++ zs ≡ xs ++ (ys ++ zs)
append_assoc [] ys zs = refl
append_assoc (x ∷ xs) ys zs = ap (◌∷◌ x) (append_assoc xs ys zs)

pub last_or-snoc : (a : ℕ) (xs : List ℕ) (e : ℕ) → last_or a (xs ++ e ∷ []) ≡ e
last_or-snoc a [] e = refl
last_or-snoc a (x ∷ xs) e = last_or-snoc x xs e
