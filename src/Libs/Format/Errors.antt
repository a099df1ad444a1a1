-- ===== src/Libs/Format/Errors.antt =====
-- The table error_string of libs/printfmt.c, in character codes.
use os_lab.Base.{ℕ, ◌==◌, if◌then◌else◌, List, [], ◌∷◌}

-- The message that error_string has for the number; none is empty.
abbrev pub error_string : ℕ → List ℕ
error_string err =
    if err == 1
    then 117 ∷ 110 ∷ 115 ∷ 112 ∷ 101 ∷ 99 ∷ 105 ∷ 102 ∷ 105 ∷ 101 ∷ 100 ∷ 32 ∷ 101 ∷ 114 ∷ 114 ∷ 111
      ∷ 114 ∷ []
    else if err == 2
    then 98 ∷ 97 ∷ 100 ∷ 32 ∷ 112 ∷ 114 ∷ 111 ∷ 99 ∷ 101 ∷ 115 ∷ 115 ∷ []
    else if err == 3
    then 105 ∷ 110 ∷ 118 ∷ 97 ∷ 108 ∷ 105 ∷ 100 ∷ 32 ∷ 112 ∷ 97 ∷ 114 ∷ 97 ∷ 109 ∷ 101 ∷ 116 ∷ 101
      ∷ 114 ∷ []
    else if err == 4
    then 111 ∷ 117 ∷ 116 ∷ 32 ∷ 111 ∷ 102 ∷ 32 ∷ 109 ∷ 101 ∷ 109 ∷ 111 ∷ 114 ∷ 121 ∷ []
    else if err == 5
    then 111 ∷ 117 ∷ 116 ∷ 32 ∷ 111 ∷ 102 ∷ 32 ∷ 112 ∷ 114 ∷ 111 ∷ 99 ∷ 101 ∷ 115 ∷ 115 ∷ 101 ∷ 115
      ∷ []
    else if err == 6
    then 115 ∷ 101 ∷ 103 ∷ 109 ∷ 101 ∷ 110 ∷ 116 ∷ 97 ∷ 116 ∷ 105 ∷ 111 ∷ 110 ∷ 32 ∷ 102 ∷ 97 ∷ 117
      ∷ 108 ∷ 116 ∷ []
    else if err == 8
    then 105 ∷ 110 ∷ 118 ∷ 97 ∷ 108 ∷ 105 ∷ 100 ∷ 32 ∷ 101 ∷ 108 ∷ 102 ∷ 32 ∷ 102 ∷ 105 ∷ 108 ∷ 101
      ∷ []
    else if err == 9
    then 112 ∷ 114 ∷ 111 ∷ 99 ∷ 101 ∷ 115 ∷ 115 ∷ 32 ∷ 105 ∷ 115 ∷ 32 ∷ 107 ∷ 105 ∷ 108 ∷ 108 ∷ 101
      ∷ 100 ∷ []
    else if err == 10
    then 112 ∷ 97 ∷ 110 ∷ 105 ∷ 99 ∷ 32 ∷ 102 ∷ 97 ∷ 105 ∷ 108 ∷ 117 ∷ 114 ∷ 101 ∷ []
    else []
