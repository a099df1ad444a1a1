-- ===== src/Libs/Format/Decimal.antt =====
-- "%d": strtol reads the number back, its sign too.
use os_lab.Base.{
  Ptr, ℕ, suc, ◌+◌, ◌-◌, ◌%◌, ◌^◌, ◌<◌, ◌≤◌, ◌≡◌, true, false, Bool-cases, inl, inr, ltb,
  if◌then◌else◌, List, [], ◌∷◌, ◌++◌, map, some, refl, ap, ◌∙◌, arith, length, Ends,
}
use mathlib.Core.List.{append-nil}
use os_lab.Base.Int.{ℤ, pos, negsuc, to_int32}
use os_lab.Libs.Strings.Defs.{Memory}
use os_lab.Libs.Strings.Text.{IsString}
use os_lab.Libs.Numerals.Defs.{digit, printnum, strtol, skip_blanks, read_sign}
use os_lab.Libs.Numerals.Print.{value_of, Below, printnum_lem}
use os_lab.Libs.Numerals.Read.{read_digits_lem, strtol-digits}
use os_lab.Libs.Numerals.RoundTrip.{stored, stored-IsString, has-digits, length-digits}
use os_lab.Libs.Format.Defs.{vprintfmt, print_escape, read_spec, convert, magnitude, is_negative}

strtol-minus :
    (f s : ℕ) (mem : Memory) (ds : List ℕ)
    → Below 10 ds
    → IsString mem s (45 ∷ map digit ds)
    → 0 < value_of 10 0 ds
    → value_of 10 0 ds < 2 ^ 63
    → length ds < f
    → strtol (suc f) s 10 mem ≡ some (negsuc (value_of 10 0 ds - 1), suc s + length ds)
unfolding strtol skip_blanks
strtol-minus f s mem ds b i more lt n =
    let large : ltb ((2 ^ 64 - value_of 10 0 ds) % 2 ^ 64) (2 ^ 63) ≡ false =
      ground (arith, more, lt) in
    let back : 2 ^ 64 - (2 ^ 64 - value_of 10 0 ds) % 2 ^ 64 - 1 ≡ value_of 10 0 ds - 1 =
      omega (arith, more, lt) in
    let sign : read_sign s mem ≡ (suc s, true) = rw (i.0) refl in
    let digits =
      read_digits_lem (suc f) (suc s) 0 10 mem ds (omega arith) (omega arith) b i.2 (omega arith)
        (omega arith) in
    rw (i.0) (rw (ap (λ p. p.0) sign, ap (λ p. p.1) sign, digits, large, back) refl)

-- What an escape sequence of 'd' alone prints.
escape_runs :
    (f fmt a : ℕ) (args digits : List ℕ) (mem : Memory)
    → mem fmt ≡ 100
    → printnum (suc f) (magnitude (to_int32 (a % 2 ^ 32))) 10 (negsuc 0) 32 ≡ some digits
    → print_escape (suc f) fmt (a ∷ args) mem
      ≡ some (if is_negative (to_int32 (a % 2 ^ 32)) then 45 ∷ digits else digits, suc fmt, args)
unfolding print_escape read_spec convert
escape_runs f fmt a args digits mem d run = rw (d, run) refl

decimal_runs :
    (f fmt a : ℕ) (args digits : List ℕ) (mem : Memory)
    → IsString mem fmt (37 ∷ 100 ∷ [])
    → printnum (suc f) (magnitude (to_int32 (a % 2 ^ 32))) 10 (negsuc 0) 32 ≡ some digits
    → vprintfmt (suc (suc f)) fmt (a ∷ args) mem
      ≡ some ((if is_negative (to_int32 (a % 2 ^ 32)) then 45 ∷ digits else digits) ++ [])
unfolding vprintfmt
decimal_runs f fmt a args digits mem i run =
    rw (i.0, escape_runs f (suc fmt) a args digits mem i.2.0 run, i.2.2) refl

stored_minus :
    (s : Ptr) (ds : List ℕ) (mem : Memory)
    → IsString (stored s (45 ∷ map digit ds) mem) s (45 ∷ map digit ds)
stored_minus s ds mem = stored-IsString s (45 ∷ map digit ds) mem (ground (arith, has-digits ds))

int32_size : (d : ℕ) → d < 2 ^ 32 → magnitude (to_int32 d) ≤ 2 ^ 31
int32_size d lt = elim (Bool-cases (ltb d (2 ^ 31))) [
  | inl small ↦ rw small (ground (arith, small))
  | inr large ↦ rw large (ground (arith, large))
]

abbrev signed : ℤ → List ℕ → List ℕ
signed z digits = if is_negative z then 45 ∷ digits else digits

reads_back :
    (z : ℤ) (ds : List ℕ) (s : Ptr) (mem : Memory)
    → magnitude z < 2 ^ 63
    → value_of 10 0 ds ≡ magnitude z
    → Below 10 ds
    → strtol (suc (length (signed z (map digit ds)))) s 10 (stored s (signed z (map digit ds)) mem)
      ≡ some (z, s + length (signed z (map digit ds)))
reads_back (pos v) ds s mem small value b =
    let n = length-digits ds in
    let i = stored-IsString s (map digit ds) mem (has-digits ds) in
    rw n (
      strtol-digits (suc (length ds)) s 0 10 (stored s (map digit ds) mem) ds (omega arith)
        (omega arith) b i (rw value small) (omega arith)
      ∙ rw value (ap (λ a. some (pos v, a)) (omega arith)))
reads_back (negsuc v) ds s mem small value b =
    let n = length-digits ds in
    let same : suc v - 1 ≡ v = omega arith in
    let place : suc s + length ds ≡ s + suc (length ds) = omega arith in
    rw n (
      strtol-minus (suc (length ds)) s (stored s (45 ∷ map digit ds) mem) ds b
        (stored_minus s ds mem) (rw value (omega arith)) (rw value small) (omega arith)
      ∙ rw value (rw (same, place) refl))

-- For the format "%d" and any first argument, vprintfmt returns, and strtol reads what it prints
-- back in base 10, up to its last character, as the int that the argument is, its sign too.
pub strtol-vprintfmt :
    (fmt a : ℕ) (args : List ℕ) (mem : Memory) (s : Ptr)
    → IsString mem fmt (37 ∷ 100 ∷ [])
    → Ends (vprintfmt 65 fmt (a ∷ args) mem) λ out.
      strtol (suc (length out)) s 10 (stored s out mem)
      ≡ some (to_int32 (a % 2 ^ 32), s + length out)
strtol-vprintfmt fmt a args mem s i =
    let z = to_int32 (a % 2 ^ 32) in
    let size = int32_size (a % 2 ^ 32) (omega arith) in
    let (out, run, p) =
      printnum_lem 63 (magnitude z) 10 (negsuc 0) 32 (omega arith) (omega (arith, size)) in
    let none_left : 0 - length p.digits ≡ 0 = omega arith in
    let form : out ≡ map digit p.digits = p.form ∙ rw none_left refl in
    let whole : vprintfmt 65 fmt (a ∷ args) mem ≡ some (signed z (map digit p.digits)) =
      decimal_runs 63 fmt a args out mem i run
      ∙ ap some (append-nil (signed z out) ∙ ap (signed z) form) in
    (
      signed z (map digit p.digits),
      whole,
      reads_back z p.digits s mem (omega (arith, size)) p.value p.small,
    )
