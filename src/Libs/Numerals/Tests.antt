-- ===== src/Libs/Numerals/Tests.antt =====
-- Numbers as text.
use os_lab.Base.{inr, ◌+◌, length, refl, suc, some, arith, ◌≡◌, ◌∷◌, Ends, []}
use os_lab.Base.Int.{pos, negsuc}
use os_lab.Libs.Numerals.Defs.{skip_blanks, read_digits, printnum, strtol}
use os_lab.Libs.Numerals.RoundTrip.{stored, strtol-printnum}

strtol-printnum_example : Ends (printnum 64 48879 16 (pos 8) 32) λ out.
    strtol (suc (length out)) 700 16 (stored 700 out (λ q. 9)) ≡ some (pos 48879, 700 + length out)
strtol-printnum_example =
    strtol-printnum 48879 16 (pos 8) 32 700 (λ q. 9) (omega arith) (omega arith) (omega arith)
      (inr refl)

-- "0000beef"
printnum_beef :
    printnum 64 48879 16 (pos 8) 48 ≡ some (48 ∷ 48 ∷ 48 ∷ 48 ∷ 98 ∷ 101 ∷ 101 ∷ 102 ∷ [])
unfolding printnum
printnum_beef = refl

-- "-0x1f", with a blank before it, in base 0.
strtol_hex :
    strtol 9 0 0 (stored 0 (32 ∷ 45 ∷ 48 ∷ 120 ∷ 49 ∷ 102 ∷ []) (λ q. 0)) ≡ some (negsuc 30, 6)
unfolding strtol skip_blanks read_digits
strtol_hex = refl
