-- ===== src/Libs/Numerals/Print.antt =====
-- printnum prints the digits of the number.
use os_lab.Base.{
  append_assoc, ◌∙◌, false, length-append, leb, ◌%◌, inr, ◌||◌, inl, Ends, arith, ◌==◌, suc, true,
  ◌+◌, ◌*◌, ap, Bool-cases, head_or, refl, length, ◌≢◌, ◌^◌, ◌<◌, ◌-◌, ◌∷◌, ◌/◌, ◌++◌, ltb, map,
  List, ◌≤◌, ◌≡◌, [], ℕ,
}
use native.Mathlib.Nat.{
  mod-eq_of_lt, mul-le-mul_left, div-mul-le_self, pow-suc, mod-lt, div-add-mod',
}
use os_lab.Base.Int.{ℤ, pos, negsuc, pos_part}
use os_lab.Libs.Numerals.Defs.{digit, replicate, minus_one_from, padding, printnum}

-- The number that `val` and the digits behind it stand for.
abbrev pub value_of : (base val : ℕ) → List ℕ → ℕ
value_of base val [] = val
value_of base val (d ∷ ds) = value_of base (val * base + d) ds

abbrev pub Below : ℕ → List ℕ → Type 0
Below base [] = Unit {0}
Below base (d ∷ ds) = (d < base) × Below base ds

-- The digits of `num`, most significant first, padded on the left up to the width.
pub record Printed (num base : ℕ) (width : ℤ) (padc : ℕ) (out : List ℕ) : Type 0 where
  pub digits : List ℕ
  pub form : out ≡ replicate (pos_part width - length digits) padc ++ map digit digits
  pub value : value_of base 0 digits ≡ num
  pub small : Below base digits
  pub first : ((num == 0) || ltb 0 (head_or 0 digits)) ≡ true

value_of-snoc :
    (base val : ℕ) (ds : List ℕ) (d : ℕ)
    → value_of base val (ds ++ d ∷ []) ≡ value_of base val ds * base + d
value_of-snoc base val [] d = refl
value_of-snoc base val (e ∷ ds) d = value_of-snoc base (val * base + e) ds d

Below-snoc : (base : ℕ) (ds : List ℕ) (d : ℕ) → Below base ds → d < base → Below base (ds ++ d ∷ [])
Below-snoc base [] d b lt = (lt, tt)
Below-snoc base (e ∷ ds) d b lt = (b.0, Below-snoc base ds d b.1 lt)

map-snoc : (ds : List ℕ) (d : ℕ) → map digit (ds ++ d ∷ []) ≡ map digit ds ++ digit d ∷ []
map-snoc [] d = refl
map-snoc (e ∷ ds) d = ap (◌∷◌ (digit e)) (map-snoc ds d)

head_or-snoc :
    (ds : List ℕ) (d : ℕ) → ltb 0 (head_or 0 ds) ≡ true → ltb 0 (head_or 0 (ds ++ d ∷ [])) ≡ true
head_or-snoc [] d h = ground arith
head_or-snoc (e ∷ ds) d h = h

pos_part-minus_one_from : (w : ℤ) → pos_part (minus_one_from w) ≡ pos_part w - 1
pos_part-minus_one_from (pos n) = elim (Bool-cases (n == 0)) [
  | inl e ↦ rw e (ground arith)
  | inr e ↦ rw e refl
]
pos_part-minus_one_from (negsuc n) = omega arith

padding-pos_part : (w : ℤ) (c : ℕ) → padding w c ≡ replicate (pos_part w - 1) c
padding-pos_part (pos n) c = refl
padding-pos_part (negsuc n) c = refl

half : (n num base : ℕ) → 2 ≤ base → num < 2 ^ suc (suc n) → num / base < 2 ^ suc n
half n num base le lt =
    let q = num / base in
    let a : q * 2 ≤ q * base = mul-le-mul_left q le in
    omega (arith, div-mul-le_self num base, pow-suc 2 (suc n))

quotient_ne : (num base : ℕ) → 2 ≤ base → base ≤ num → num / base ≢ 0
quotient_ne num base le ge e =
    let m : num % base < base = mod-lt num (omega arith) in
    let d : 0 * base + num % base ≡ num = rw e at (div-add-mod' num base) in omega arith

-- The last call: the padding and one digit.
Printed-single :
    (num base : ℕ) (width : ℤ) (padc : ℕ)
    → num < base
    → Printed num base width padc (padding width padc ++ digit (num % base) ∷ [])
Printed-single num base width padc lt = record {
  digits = num ∷ [];
  form = rw (padding-pos_part width padc, mod-eq_of_lt lt) refl;
  value = omega arith;
  small = (lt, tt);
  first = ground arith;
}

-- One digit more behind those of the quotient.
Printed-snoc :
    (num base : ℕ) (width : ℤ) (padc : ℕ) (front : List ℕ)
    → 2 ≤ base
    → base ≤ num
    → Printed (num / base) base (minus_one_from width) padc front
    → Printed num base width padc (front ++ digit (num % base) ∷ [])
Printed-snoc num base width padc front le ge p =
    let ds = p.digits in
    let d = num % base in
    let count : pos_part (minus_one_from width) - length ds
        ≡ pos_part width - length (ds ++ d ∷ []) =
      omega (arith, pos_part-minus_one_from width, length-append ds (d ∷ [])) in
    record {
      digits = ds ++ d ∷ [];
      form =
          ap (λ o. o ++ digit d ∷ []) p.form
          ∙ (append_assoc (replicate _ padc) (map digit ds) (digit d ∷ [])
              ∙ rw (count, map-snoc ds d) refl);
      value = value_of-snoc base 0 ds d ∙ rw (p.value) (div-add-mod' num base);
      small = Below-snoc base ds d p.small (mod-lt num (omega arith));
      first = ground (arith, head_or-snoc ds d, p.first, quotient_ne num base le ge);
    }

-- For a number of at most n + 1 binary digits, n + 1 levels of recursion are enough.
pub printnum_lem :
    (n num base : ℕ) (width : ℤ) (padc : ℕ)
    → 2 ≤ base
    → num < 2 ^ suc n
    → Ends (printnum (suc n) num base width padc) λ out. Printed num base width padc out
unfolding printnum
printnum_lem Prim.Native.Nat.zero num base width padc le lt =
    let small : leb base num ≡ false = ground arith in
    rw small (
      padding width padc ++ digit (num % base) ∷ [],
      refl,
      Printed-single num base width padc (ground arith),
    )
printnum_lem (suc n) num base width padc le lt = elim (Bool-cases (leb base num)) [
  | inl big ↦
      let (front, run, p) =
        printnum_lem n (num / base) base (minus_one_from width) padc le (half n num base le lt) in
      rw (big, run)
        (
          front ++ digit (num % base) ∷ [],
          refl,
          Printed-snoc num base width padc front le (ground arith) p,
        )
  | inr small ↦ rw small (
    padding width padc ++ digit (num % base) ∷ [],
    refl,
    Printed-single num base width padc (ground arith),
  )
]
