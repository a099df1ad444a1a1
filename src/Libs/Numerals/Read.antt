-- ===== src/Libs/Numerals/Read.antt =====
-- strtol reads back what printnum prints.
use os_lab.Base.{
  refl, ◌∙◌, leb, ◌*◌, true, subst, ap, ltb, suc, length, ◌^◌, ◌+◌, ◌++◌, some, map, false, ◌∷◌,
  arith, ◌≡◌, ◌≤◌, ◌||◌, List, ◌<◌, ◌==◌, [], ℕ,
}
use os_lab.Base.Int.{pos}
use native.Mathlib.Nat.{mod-eq_of_lt, le-mul_of_pos_right}
use os_lab.Libs.Strings.Defs.{Memory}
use os_lab.Libs.Strings.Text.{IsString}
use os_lab.Libs.Numerals.Defs.{
  digit, digit_of, replicate, skip_blanks, read_prefix, read_digits, strtol,
}
use os_lab.Libs.Numerals.Print.{value_of, Below}

digit_of-digit : (d : ℕ) → d < 16 → digit_of (digit d) ≡ some d
digit_of-digit d lt = ground arith

-- The first character of a number, or the null byte, is no blank, sign or letter x.
record Plain (c : ℕ) : Type 0 where
  not_blank : ((c == 32) || (c == 9)) ≡ false
  not_plus : (c == 43) ≡ false
  not_minus : (c == 45) ≡ false
  not_x : (c == 120) ≡ false

digit-Plain : (d : ℕ) → d < 16 → Plain (digit d)
digit-Plain d lt = record {
  not_blank = ground arith;
  not_plus = ground arith;
  not_minus = ground arith;
  not_x = ground arith;
}

first-Plain :
    (base s : ℕ) (mem : Memory) (ds : List ℕ)
    → base ≤ 16
    → Below base ds
    → IsString mem s (map digit ds)
    → Plain (mem s)
first-Plain base s mem [] le b i = rw i (record {
  not_blank = ground arith;
  not_plus = ground arith;
  not_minus = ground arith;
  not_x = ground arith;
})
first-Plain base s mem (d ∷ ds) le b i = rw (i.0) (digit-Plain d (omega (arith, b.0)))

pub no_prefix :
    (base s : ℕ) (mem : Memory) (ds : List ℕ)
    → 2 ≤ base
    → base ≤ 16
    → Below base ds
    → IsString mem s (map digit ds)
    → read_prefix s base mem ≡ (s, base)
no_prefix base s mem [] lo le b i = rw i (ground arith)
no_prefix base s mem (d ∷ ds) lo le b i =
    ground (arith, (first-Plain base (suc s) mem ds le b.1 i.2).not_x)

le_value_of : (base v : ℕ) (ds : List ℕ) → 1 ≤ base → v ≤ value_of base v ds
le_value_of base v [] le = omega arith
le_value_of base v (d ∷ ds) le =
    let p : v ≤ v * base = le-mul_of_pos_right v (omega arith) in
    omega (arith, p, le_value_of base (v * base + d) ds le)

pub read_digits_lem :
    (f s v base : ℕ) (mem : Memory) (ds : List ℕ)
    → 2 ≤ base
    → base ≤ 16
    → Below base ds
    → IsString mem s (map digit ds)
    → value_of base v ds < 2 ^ 64
    → length ds < f
    → read_digits f s v base mem ≡ some (value_of base v ds, s + length ds)
unfolding read_digits
read_digits_lem Prim.Native.Nat.zero s v base mem ds lo hi b i lt n = absurd (omega arith)
read_digits_lem (suc f) s v base mem [] lo hi b i lt n =
    rw (read_digits, i) (ap (λ a. some (v, a)) (omega arith))
read_digits_lem (suc f) s v base mem (d ∷ ds) lo hi b i lt n =
    let fits : v * base + d < 2 ^ 64 =
      omega (arith, le_value_of base (v * base + d) ds (omega arith)) in
    let t : leb base d ≡ false = ground (arith, b.0) in
    rw (read_digits, i.0, digit_of-digit d (omega (arith, b.0)), t, mod-eq_of_lt fits)
      (read_digits_lem f (suc s) (v * base + d) base mem ds lo hi b.1 i.2 lt (omega arith)
        ∙ ap (λ a. some (value_of base (v * base + d) ds, a)) (omega arith))

-- Blanks, and then the digits.
skip_blanks_lem :
    (f s k base : ℕ) (mem : Memory) (ds : List ℕ)
    → base ≤ 16
    → Below base ds
    → IsString mem s (replicate k 32 ++ map digit ds)
    → k < f
    → (skip_blanks f s mem ≡ some (s + k)) × IsString mem (s + k) (map digit ds)
unfolding skip_blanks
skip_blanks_lem Prim.Native.Nat.zero s k base mem ds hi b i lt = absurd (omega arith)
skip_blanks_lem (suc f) s Prim.Native.Nat.zero base mem ds hi b i lt = (
  rw (first-Plain base s mem ds hi b i).not_blank (ap some (omega arith)),
  subst (λ a. IsString mem a (map digit ds)) (omega arith) i,
)
skip_blanks_lem (suc f) s (suc k) base mem ds hi b i lt =
    let (run, j) = skip_blanks_lem f (suc s) k base mem ds hi b i.2 (omega arith) in
    (
      rw (i.0, run) (ap some (omega arith)),
      subst (λ a. IsString mem a (map digit ds)) (omega arith) j,
    )

-- The digits of a number below 2 ^ 63, with blanks before them.
pub strtol-digits :
    (f s k base : ℕ) (mem : Memory) (ds : List ℕ)
    → 2 ≤ base
    → base ≤ 16
    → Below base ds
    → IsString mem s (replicate k 32 ++ map digit ds)
    → value_of base 0 ds < 2 ^ 63
    → k + length ds < f
    → strtol f s base mem ≡ some (pos (value_of base 0 ds), s + k + length ds)
unfolding strtol
strtol-digits f s k base mem ds lo hi b i lt n =
    let (run, j) = skip_blanks_lem f s k base mem ds hi b i (omega arith) in
    let plain = first-Plain base (s + k) mem ds hi b j in
    let small : ltb (value_of base 0 ds) (2 ^ 63) ≡ true = ground arith in
    let same = no_prefix base (s + k) mem ds lo hi b j in
    rw
      (
        run,
        plain.not_plus,
        plain.not_minus,
        ap (λ p. p.0) same,
        ap (λ p. p.1) same,
        read_digits_lem f (s + k) 0 base mem ds lo hi b j (omega arith) (omega arith),
        small,
      )
      refl
