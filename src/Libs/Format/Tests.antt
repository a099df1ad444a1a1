-- ===== src/Libs/Format/Tests.antt =====
-- Formatted output.
use os_lab.Base.{◌+◌, ◌≡◌, suc, [], ◌∷◌, some, refl, arith, length, Ends}
use os_lab.Base.Int.{to_int32}
use os_lab.Libs.Strings.Defs.{Memory, strnlen, strnlen_from}
use os_lab.Libs.Numerals.Defs.{printnum, strtol}
use os_lab.Libs.Numerals.RoundTrip.{stored}
use os_lab.Libs.Format.Defs.{
  vprintfmt, print_escape, read_spec, read_width, convert, rewind, print_string, put_string,
  print_error,
}
use os_lab.Libs.Format.Decimal.{strtol-vprintfmt}

-- "%d"
abbrev percent_d : Memory
percent_d = stored 100 (37 ∷ 100 ∷ []) (λ q. 9)

strtol-vprintfmt_example : Ends (vprintfmt 65 100 (4294967254 ∷ []) percent_d) λ out.
    strtol (suc (length out)) 700 10 (stored 700 out percent_d)
    ≡ some (to_int32 (4294967254), 700 + length out)
strtol-vprintfmt_example = strtol-vprintfmt 100 4294967254 [] percent_d 700 (ground arith)

-- "a%4d"
abbrev four_wide : Memory
four_wide = stored 100 (97 ∷ 37 ∷ 52 ∷ 100 ∷ []) (λ q. 9)

prints_wide : vprintfmt 8 100 (7 ∷ []) four_wide ≡ some (97 ∷ 32 ∷ 32 ∷ 32 ∷ 55 ∷ [])
unfolding vprintfmt print_escape read_spec read_width convert printnum
prints_wide = refl

-- "%-3d": the minus signs are padding.
prints_left :
    vprintfmt 8 100 (7 ∷ []) (stored 100 (37 ∷ 45 ∷ 51 ∷ 100 ∷ []) (λ q. 9))
    ≡ some (45 ∷ 45 ∷ 55 ∷ [])
unfolding vprintfmt print_escape read_spec read_width convert printnum
prints_left = refl

-- "%8s" with NULL, "%.q" and "%e" with -4.
prints_null :
    vprintfmt 9 100 (0 ∷ []) (stored 100 (37 ∷ 56 ∷ 115 ∷ []) (λ q. 0))
    ≡ some (32 ∷ 32 ∷ 40 ∷ 110 ∷ 117 ∷ 108 ∷ 108 ∷ 41 ∷ [])
unfolding vprintfmt print_escape read_spec read_width convert print_string put_string strnlen
    strnlen_from
prints_null = refl

prints_unknown :
    vprintfmt 9 100 [] (stored 100 (37 ∷ 46 ∷ 113 ∷ []) (λ q. 0)) ≡ some (37 ∷ 46 ∷ 113 ∷ [])
unfolding vprintfmt print_escape read_spec rewind
prints_unknown = refl

prints_error :
    vprintfmt 9 100 (4294967292 ∷ []) (stored 100 (37 ∷ 101 ∷ []) (λ q. 0))
    ≡ some (111 ∷ 117 ∷ 116 ∷ 32 ∷ 111 ∷ 102 ∷ 32 ∷ 109 ∷ 101 ∷ 109 ∷ 111 ∷ 114 ∷ 121 ∷ [])
unfolding vprintfmt print_escape read_spec convert print_error
prints_error = refl
