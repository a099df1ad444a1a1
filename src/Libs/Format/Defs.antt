-- ===== src/Libs/Format/Defs.antt =====
-- vprintfmt of libs/printfmt.c, for widths that an int can hold. The output is the list of the characters that are put;
-- the arguments are the patterns of 64 bits that va_arg takes them from, one after the other. `none`
-- means that the fuel or the arguments ran out.
use os_lab.Base.{
  Ptr, null, ℕ, suc, ◌+◌, ◌-◌, ◌*◌, ◌%◌, ◌^◌, Bool, true, false, not, ◌&&◌, ◌||◌, ◌==◌, ltb, leb,
  if◌then◌else◌, List, [], ◌∷◌, ◌++◌, Option, none, some, ◌>>=◌, length,
}
use os_lab.Base.Int.{ℤ, pos, negsuc, to_int32}
use os_lab.Libs.Strings.Defs.{Memory, strnlen}
use os_lab.Libs.Numerals.Defs.{printnum, replicate, minus_one_from, to_int64}
use os_lab.Libs.Format.Errors.{error_string}

-- What is known of an escape sequence while it is read.
pub record Spec : Type 0 where
  pub padc : ℕ
  pub width : ℤ
  pub precision : ℤ
  pub lflag : ℕ
  pub altflag : Bool

abbrev pub no_flags : Spec
no_flags = record { padc = 32; width = negsuc 0; precision = negsuc 0; lflag = 0; altflag = false }

abbrev pub is_negative : ℤ → Bool
is_negative (pos n) = false
is_negative (negsuc n) = true

abbrev pub magnitude : ℤ → ℕ
magnitude (pos n) = n
magnitude (negsuc n) = suc n

-- As a count of characters that are put: none if it is not above 0.
abbrev pub count_of : ℤ → ℕ
count_of (pos n) = n
count_of (negsuc n) = 0

abbrev pub to_size : ℤ → ℕ
to_size (pos n) = n
to_size (negsuc n) = 2 ^ 64 - suc n

-- width -= n, for a width above 0.
abbrev pub less : ℤ → ℕ → ℤ
less (pos w) n = if leb n w then pos (w - n) else negsuc (n - w - 1)
less (negsuc w) n = negsuc (w + n)

abbrev pub va_arg : List ℕ → Option (ℕ × List ℕ)
va_arg [] = none
va_arg (a ∷ args) = some (a, args)

abbrev pub getuint : ℕ → ℕ → ℕ
getuint a lflag = if lflag == 0 then a % 2 ^ 32 else a % 2 ^ 64

abbrev pub getint : ℕ → ℕ → ℤ
getint a lflag = if lflag == 0 then to_int32 (a % 2 ^ 32) else to_int64 (a % 2 ^ 64)

-- process_precision
abbrev pub set_precision : ℤ → Spec → Spec
set_precision p s =
    if is_negative s.width
    then record s { width = p; precision = negsuc 0 }
    else record s { precision = p }

-- The loop that reads a width: `ch` is its first digit, and `fmt` the character behind that.
unfoldable pub read_width : (fuel : ℕ) → (precision ch : ℕ) → Ptr → Memory → Option (ℕ × Ptr)
read_width Prim.Native.Nat.zero precision ch fmt mem = none
read_width (suc f) precision ch fmt mem =
    let precision' = precision * 10 + ch - 48 in
    let rest = read_width f precision' (mem fmt) (suc fmt) mem in
    if ltb (mem fmt) 48 || ltb 57 (mem fmt) then some (precision', fmt) else rest

-- From `reswitch` on, up to the character that says what to print: that, what is known, and what
-- comes next.
unfoldable pub read_spec :
    (fuel : ℕ) → Spec → Ptr → List ℕ → Memory → Option (ℕ × Spec × Ptr × List ℕ)
read_spec Prim.Native.Nat.zero s fmt args mem = none
read_spec (suc f) s fmt args mem =
    let ch = mem fmt in
    let again = λ (s' : Spec) (fmt' : Ptr) (args' : List ℕ). read_spec f s' fmt' args' mem in
    if ch == 45
    then again (record s { padc = 45 }) (suc fmt) args
    else if ch == 48
    then again (record s { padc = 48 }) (suc fmt) args
    else if leb 49 ch && leb ch 57
    then (do (p, fmt') ← read_width f 0 ch (suc fmt) mem; again (set_precision (pos p) s) fmt' args)
    else if ch == 42
    then (do
      (a, args') ← va_arg args
      again (set_precision (to_int32 (a % 2 ^ 32)) s) (suc fmt) args')
    else if ch == 46
    then again (if is_negative s.width then record s { width = pos 0 } else s) (suc fmt) args
    else if ch == 35
    then again (record s { altflag = true }) (suc fmt) args
    else if ch == 108
    then again (record s { lflag = s.lflag + 1 }) (suc fmt) args
    else some (ch, s, suc fmt, args)

-- The characters of a string, up to the precision, and the width that is left.
unfoldable pub put_string :
    (fuel : ℕ) → Ptr → (width precision : ℤ) → Bool → Memory → Option (List ℕ × ℤ)
put_string Prim.Native.Nat.zero p width precision altflag mem = none
put_string (suc f) p width precision altflag mem =
    let ch = mem p in
    let precision' = if is_negative precision then precision else minus_one_from precision in
    let rest = put_string f (suc p) (minus_one_from width) precision' altflag mem >>= λ (out, left).
    some ((if altflag && (ltb ch 32 || ltb 126 ch) then 63 else ch) ∷ out, left) in
    if ch == 0
    then some ([], width)
    else if not (is_negative precision) && is_negative precision'
    then some ([], width)
    else rest

-- The string at address 0 of this memory is the one to print: that of the argument, or "(null)".
abbrev pub text_of : Ptr → Memory → Memory
text_of p mem k =
    if p == null
    then (if k == 0
        then 40
        else if k == 1
        then 110
        else if k == 2
        then 117
        else if k == 3
        then 108
        else if k == 4
        then 108
        else if k == 5
        then 41
        else 0)
    else mem (p + k)

unfoldable pub print_string : (fuel : ℕ) → Spec → Memory → Option (List ℕ)
print_string fuel s text =
    let pad = ltb 0 (count_of s.width) && not (s.padc == 45) in
    let rest = if pad then less s.width (strnlen 0 (to_size s.precision) text) else s.width in
    let front = if pad then replicate (count_of rest) s.padc else [] in
    let width = if pad && not (is_negative rest) then pos 0 else rest in
    do
      (out, left) ← put_string fuel 0 width s.precision s.altflag text
      some (front ++ (out ++ replicate (count_of left) 32))

-- %e
unfoldable pub print_error : (fuel : ℕ) → ℕ → Option (List ℕ)
print_error fuel err =
    let number = printnum fuel err 10 (negsuc 0) 32 >>= λ digits.
    some (101 ∷ 114 ∷ 114 ∷ 111 ∷ 114 ∷ 32 ∷ digits) in
    if ltb 24 err || (length (error_string err) == 0) then number else some (error_string err)

-- What is printed for the character `ch`, which is not that of an unknown sequence.
unfoldable pub convert : (fuel : ℕ) → (ch : ℕ) → Spec → List ℕ → Memory → Option (List ℕ × List ℕ)
convert fuel ch s args mem = if ch == 37 then some (37 ∷ [], args) else do
  (a, args') ← va_arg args
  out ←
      if ch == 99
      then some (a % 2 ^ 32 ∷ [])
      else if ch == 101
      then print_error fuel (magnitude (to_int32 (a % 2 ^ 32)))
      else if ch == 115
      then print_string fuel s (text_of (a % 2 ^ 64) mem)
      else if ch == 100
      then (do
        digits ← printnum fuel (magnitude (getint a s.lflag)) 10 s.width s.padc
        some (if is_negative (getint a s.lflag) then 45 ∷ digits else digits))
      else if ch == 117
      then printnum fuel (getuint a s.lflag) 10 s.width s.padc
      else if ch == 111
      then printnum fuel (getuint a s.lflag) 8 s.width s.padc
      else if ch == 112
      then (printnum fuel (a % 2 ^ 64) 16 s.width s.padc >>= λ digits. some (48 ∷ 120 ∷ digits))
      else printnum fuel (getuint a s.lflag) 16 s.width s.padc
  some (out, args')

-- The characters that `convert` knows.
abbrev pub is_conversion : ℕ → Bool
is_conversion ch =
    (ch == 37)
    || ((ch == 99)
        || ((ch == 101)
            || ((ch == 115)
                || ((ch == 100)
                    || ((ch == 117) || ((ch == 111) || ((ch == 112) || (ch == 120))))))))

-- for (fmt --; fmt[-1] != '%'; fmt --)
unfoldable pub rewind : (fuel : ℕ) → Ptr → Memory → Option Ptr
rewind Prim.Native.Nat.zero fmt mem = none
rewind (suc f) fmt mem =
    let rest = rewind f (fmt - 1) mem in if mem (fmt - 1) == 37 then some fmt else rest

-- An escape sequence, from behind its '%' on.
unfoldable pub print_escape : (fuel : ℕ) → Ptr → List ℕ → Memory → Option (List ℕ × Ptr × List ℕ)
print_escape fuel fmt args mem = do
  (ch, s, fmt', args') ← read_spec fuel no_flags fmt args mem
  if is_conversion ch
      then (convert fuel ch s args' mem >>= λ (out, args''). some (out, fmt', args''))
      else (rewind fuel (fmt' - 1) mem >>= λ back. some (37 ∷ [], back, args'))

unfoldable pub vprintfmt : (fuel : ℕ) → Ptr → List ℕ → Memory → Option (List ℕ)
vprintfmt Prim.Native.Nat.zero fmt args mem = none
vprintfmt (suc f) fmt args mem =
    let piece =
      if mem fmt == 37
      then print_escape f (suc fmt) args mem
      else some (mem fmt ∷ [], suc fmt, args) in
    let more =
      piece >>= λ (out, fmt', args'). vprintfmt f fmt' args' mem >>= λ rest. some (out ++ rest) in
    if mem fmt == 0 then some [] else more
