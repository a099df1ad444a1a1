-- ===== src/Libs/Numerals/RoundTrip.antt =====
-- strtol reads back what printnum prints.
use os_lab.Base.{
  sym, inl, has-append, ◌∙◌, length-append, ◌-◌, inr, some, ◌+◌, Ends, ap, ◌⊎◌, refl, false, ◌^◌,
  suc, ◌∷◌, arith, map, update, ◌<◌, ◌++◌, ◌≡◌, has, List, length, ◌≢◌, ◌≤◌, Ptr, [], ℕ,
}
use os_lab.Base.Int.{ℤ, pos, pos_part}
use os_lab.Libs.Strings.Defs.{Memory}
use os_lab.Libs.Strings.Text.{IsString}
use os_lab.Libs.Numerals.Defs.{digit, replicate, printnum, strtol}
use os_lab.Libs.Numerals.Print.{value_of, Below, printnum_lem}
use os_lab.Libs.Numerals.Read.{strtol-digits}

-- The memory with the characters from `s` on, and a null byte behind them.
abbrev pub stored : Ptr → List ℕ → Memory → Memory
stored s [] mem = update mem s 0
stored s (c ∷ cs) mem = update (stored (suc s) cs mem) s c

IsString-update :
    (mem : Memory) (a c s : ℕ) (cs : List ℕ)
    → a < s
    → IsString mem s cs
    → IsString (update mem a c) s cs
IsString-update mem a c s [] lt i = ground arith
IsString-update mem a c s (d ∷ ds) lt i =
    (ground (arith, i.0), i.1, IsString-update mem a c (suc s) ds (omega arith) i.2)

pub stored-IsString :
    (s : Ptr) (cs : List ℕ) (mem : Memory) → has 0 cs ≡ false → IsString (stored s cs mem) s cs
stored-IsString s [] mem o = ground arith
stored-IsString s (c ∷ cs) mem o = (
  ground arith,
  ground arith,
  IsString-update (stored (suc s) cs mem) s c (suc s) cs (omega arith)
      (stored-IsString (suc s) cs mem (ground arith)),
)

pub has-digits : (ds : List ℕ) → has 0 (map digit ds) ≡ false
has-digits [] = refl
has-digits (d ∷ ds) = ground (arith, has-digits ds)

has-replicate : (k c : ℕ) → c ≢ 0 → has 0 (replicate k c) ≡ false
has-replicate Prim.Native.Nat.zero c ne = refl
has-replicate (suc k) c ne = ground (arith, has-replicate k c ne)

-- Zeros on the left are digits that do not count.
zeros-form :
    (k : ℕ) (ds : List ℕ) → replicate k 48 ++ map digit ds ≡ map digit (replicate k 0 ++ ds)
zeros-form Prim.Native.Nat.zero ds = refl
zeros-form (suc k) ds = ap (◌∷◌ 48) (zeros-form k ds)

zeros-value :
    (base k : ℕ) (ds : List ℕ) → value_of base 0 (replicate k 0 ++ ds) ≡ value_of base 0 ds
zeros-value base Prim.Native.Nat.zero ds = refl
zeros-value base (suc k) ds = ground (arith, zeros-value base k ds)

zeros-Below :
    (base k : ℕ) (ds : List ℕ) → 0 < base → Below base ds → Below base (replicate k 0 ++ ds)
zeros-Below base Prim.Native.Nat.zero ds lt b = b
zeros-Below base (suc k) ds lt b = (lt, zeros-Below base k ds lt b)

length-replicate : (k c : ℕ) → length (replicate k c) ≡ k
length-replicate Prim.Native.Nat.zero c = refl
length-replicate (suc k) c = ap suc (length-replicate k c)

pub length-digits : (ds : List ℕ) → length (map digit ds) ≡ length ds
length-digits [] = refl
length-digits (d ∷ ds) = ap suc (length-digits ds)

-- Reading the padded digits.
read_padded :
    (k s base padc : ℕ) (mem : Memory) (ds : List ℕ)
    → 2 ≤ base
    → base ≤ 16
    → Below base ds
    → value_of base 0 ds < 2 ^ 63
    → (padc ≡ 48) ⊎ (padc ≡ 32)
    → IsString mem s (replicate k padc ++ map digit ds)
    → strtol (suc (k + length ds)) s base mem ≡ some (pos (value_of base 0 ds), s + (k + length ds))
read_padded k s base padc mem ds lo hi b lt pad i = elim pad [
  | inr blank ↦
      strtol-digits (suc (k + length ds)) s k base mem ds lo hi b (rw blank at i) lt (omega arith)
      ∙ ap (λ a. some (pos (value_of base 0 ds), a)) (omega arith)
  | inl nought ↦
      let zs = replicate k 0 ++ ds in
      let n : length zs ≡ k + length ds =
        length-append (replicate k 0) ds ∙ ap (λ a. a + length ds) (length-replicate k 0) in
      let j : IsString mem s (map digit zs) = rw (sym (zeros-form k ds)) (rw nought at i) in
      let v = zeros-value base k ds in
      strtol-digits (suc (k + length ds)) s 0 base mem zs lo hi
        (zeros-Below base k ds (omega arith) b) j (omega (arith, v)) (omega (arith, n))
      ∙ rw (v, n) (ap (λ a. some (pos (value_of base 0 ds), a)) (omega arith))
]

-- What printnum prints in a base from 2 to 16, padded with zeros or blanks up to any width, strtol
-- reads back in that base, up to its last character, for every number below 2 ^ 63; 64 levels of
-- recursion are enough for printnum.
pub strtol-printnum :
    (num base : ℕ) (width : ℤ) (padc s : ℕ) (mem : Memory)
    → 2 ≤ base
    → base ≤ 16
    → num < 2 ^ 63
    → (padc ≡ 48) ⊎ (padc ≡ 32)
    → Ends
        (printnum 64 num base width padc)
        λ out. strtol (suc (length out)) s base (stored s out mem) ≡ some (pos num, s + length out)
strtol-printnum num base width padc s mem lo hi lt pad =
    let (out, run, p) = printnum_lem 63 num base width padc lo (omega arith) in
    let ds = p.digits in
    let k = pos_part width - length ds in
    let full = replicate k padc ++ map digit ds in
    let n : length full ≡ k + length ds =
      length-append (replicate k padc) (map digit ds)
      ∙ omega (arith, length-replicate k padc, length-digits ds) in
    let clean : has 0 full ≡ false = ground (
      arith,
      has-append 0 (replicate k padc) (map digit ds),
      has-digits ds,
      has-replicate k padc (ground (arith, pad)),
    ) in
    let read =
      read_padded k s base padc (stored s full mem) ds lo hi p.small (omega (arith, p.value)) pad
        (stored-IsString s full mem clean) in
    (out, run, rw (p.form, n) (read ∙ ap (λ a. some (pos a, s + (k + length ds))) p.value))
