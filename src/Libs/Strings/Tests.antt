-- ===== src/Libs/Strings/Tests.antt =====
-- Strings at 100 and at 200, and blocks that overlap.
use os_lab.Base.{
  true, ◌&&◌, leb, ℕ, ◌≡◌, ◌⊎◌, inr, List, [], ◌∷◌, ◌==◌, if◌then◌else◌, arith, some, Ends,
}
use os_lab.Base.Int.{pos}
use os_lab.Libs.Strings.Defs.{Memory, strlen, strcpy, strchr, strfind, memmove, memcmp}
use os_lab.Libs.Strings.Move.{bytes, memmove_lem, memcmp_lem}
use os_lab.Libs.Strings.Text.{IsString, strcpy_lem, strchr_lem, strlen_lem}

-- "key" and "kit".
abbrev words : Memory
words q =
    if q == 100
    then 107
    else if q == 101
    then 101
    else if q == 102
    then 121
    else if q == 200
    then 107
    else if q == 201
    then 105
    else if q == 202
    then 116
    else 0

abbrev key : List ℕ
key = 107 ∷ 101 ∷ 121 ∷ []

abbrev kit : List ℕ
kit = 107 ∷ 105 ∷ 116 ∷ []

key-IsString : IsString words 100 key
key-IsString = ground arith

kit-IsString : IsString words 200 kit
kit-IsString = ground arith

strlen_key : strlen 10 100 words ≡ some 3
strlen_key = strlen_lem 10 100 words key key-IsString (omega arith)

strchr_key : (strchr 10 100 121 words ≡ some 102) × (strfind 10 100 121 words ≡ some 102)
strchr_key = strchr_lem 10 100 121 words key key-IsString (omega arith)

strcpy_moves : Ends (strcpy 10 300 100 words) λ mem'.
    IsString mem' 300 key × ((q : ℕ) → ((leb 300 q && leb q 303) ≡ true) ⊎ (mem' q ≡ words q))
strcpy_moves = strcpy_lem 10 300 100 words key key-IsString (omega arith) (inr (omega arith))

-- The block moves up by one byte over itself.
memmove_lem_example : memmove 101 100 3 words 103 ≡ 121
memmove_lem_example = memmove_lem 101 100 3 words 103

memcmp_key_kit :
    (memcmp 100 200 3 words ≡ pos 0 → bytes words 100 3 ≡ bytes words 200 3)
    × (bytes words 100 3 ≡ bytes words 200 3 → memcmp 100 200 3 words ≡ pos 0)
memcmp_key_kit = memcmp_lem 100 200 3 words
