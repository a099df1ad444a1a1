-- ===== src/Libs/Numerals/Defs.antt =====
-- printnum of libs/printfmt.c, whose output is the list of the characters that it puts; strtol of
-- libs/string.c; rand and srand of libs/rand.c. `none` means that the fuel ran out.
use os_lab.Base.{
  ◌++◌, ◌>>=◌, true, false, some, ◌%◌, ◌||◌, ◌^◌, ◌/◌, ◌&&◌, ◌∷◌, ◌==◌, leb, ◌+◌, none, ltb, ◌-◌,
  List, Option, if◌then◌else◌, Bool, ◌*◌, Ptr, [], ℕ, suc,
}
use os_lab.Base.Int.{ℤ, pos, negsuc}
use os_lab.Libs.Strings.Defs.{Memory}

-- "0123456789abcdef"[mod]
abbrev pub digit : ℕ → ℕ
digit d = if ltb d 10 then 48 + d else 87 + d

abbrev pub replicate : ℕ → ℕ → List ℕ
replicate Prim.Native.Nat.zero c = []
replicate (suc n) c = c ∷ replicate n c

abbrev pub minus_one_from : ℤ → ℤ
minus_one_from (pos n) = if n == 0 then negsuc 0 else pos (n - 1)
minus_one_from (negsuc n) = negsuc (suc n)

-- while (-- width > 0) putch(padc)
abbrev pub padding : ℤ → ℕ → List ℕ
padding (pos n) padc = replicate (n - 1) padc
padding (negsuc n) padc = []

unfoldable pub printnum : (fuel num base : ℕ) (width : ℤ) (padc : ℕ) → Option (List ℕ)
printnum Prim.Native.Nat.zero num base width padc = none
printnum (suc f) num base width padc =
    let preceding = printnum f (num / base) base (minus_one_from width) padc in
    do
      front ← if leb base num then preceding else some (padding width padc)
      some (front ++ digit (num % base) ∷ [])

-- The digit that a character stands for, in any base.
abbrev pub digit_of : ℕ → Option ℕ
digit_of c =
    if leb 48 c && leb c 57
    then some (c - 48)
    else if leb 97 c && leb c 122
    then some (c - 97 + 10)
    else if leb 65 c && leb c 90
    then some (c - 65 + 10)
    else none

unfoldable pub skip_blanks : (fuel : ℕ) → Ptr → Memory → Option Ptr
skip_blanks Prim.Native.Nat.zero s mem = none
skip_blanks (suc f) s mem =
    let rest = skip_blanks f (suc s) mem in if (mem s == 32) || (mem s == 9) then rest else some s

-- Where the number goes on behind its sign, and whether the sign is a minus.
abbrev pub read_sign : Ptr → Memory → Ptr × Bool
read_sign s mem =
    if mem s == 43 then (suc s, false) else if mem s == 45 then (suc s, true) else (s, false)

abbrev pub read_prefix : Ptr → (base : ℕ) → Memory → Ptr × ℕ
read_prefix s base mem =
    if ((base == 0) || (base == 16)) && ((mem s == 48) && (mem (suc s) == 120))
    then (s + 2, 16)
    else if (base == 0) && (mem s == 48)
    then (suc s, 8)
    else if base == 0
    then (s, 10)
    else (s, base)

-- `val` is the pattern of a long.
unfoldable pub read_digits : (fuel : ℕ) → Ptr → (val base : ℕ) → Memory → Option (ℕ × Ptr)
read_digits Prim.Native.Nat.zero s val base mem = none
read_digits (suc f) s val base mem = elim (digit_of (mem s)) [
  | none ↦ some (val, s)
  | some dig ↦
      let rest = read_digits f (suc s) ((val * base + dig) % 2 ^ 64) base mem in
      if leb base dig then some (val, s) else rest
]

abbrev pub to_int64 : ℕ → ℤ
to_int64 d = if ltb d (2 ^ 63) then pos d else negsuc (2 ^ 64 - d - 1)

-- The value, and what *endptr gets.
unfoldable pub strtol : (fuel : ℕ) → Ptr → (base : ℕ) → Memory → Option (ℤ × Ptr)
strtol fuel s base mem = do
  s1 ← skip_blanks fuel s mem
  let (s2, neg) = read_sign s1 mem
  let (s3, base') = read_prefix s2 base mem
  (val, endptr) ← read_digits fuel s3 0 base' mem
  some (to_int64 (if neg then (2 ^ 64 - val) % 2 ^ 64 else val), endptr)

-- `next` is the state of the generator.
unfoldable pub rand : (next : ℕ) → ℕ × ℕ
rand next =
    let next' = (next * 25214903917 + 11) % 2 ^ 64 % 2 ^ 48 in (next' / 2 ^ 12 % 2147483648, next')

unfoldable pub srand : (seed next : ℕ) → ℕ
srand seed next = seed
