-- ===== src/Libs/Readline/Defs.antt =====
-- The loop of `readline`, of kern/libs/readline.c.
use os_lab.Base.{
  [], ◌∷◌, ℕ, ◌+◌, ◌-◌, ◌%◌, ◌==◌, leb, ltb, ◌&&◌, ◌||◌, if◌then◌else◌, Ptr, null, update, Option,
  some, none, List,
}
use os_lab.Base.Int.{ℤ, pos, negsuc}
use os_lab.Libs.Strings.Defs.{Memory}

abbrev pub bufsize : ℕ
bufsize = 1024

-- buf[i ++] = c for a character that is kept, i -- for a backspace.
abbrev pub edit : Ptr → ℕ → ℕ → Memory → ℕ × Memory
edit buf c i mem =
    if leb 32 c && ltb i (bufsize - 1)
    then (i + 1, update mem (buf + i) (c % 256))
    else if (c == 8) && ltb 0 i
    then (i - 1, mem)
    else (i, mem)

-- `input` is what getchar returns, call by call; `none` means that it waits for more. The prompt and
-- the echo are left out.
unfoldable pub readline_from : (input : List ℤ) → (buf i : ℕ) → Memory → Option (Ptr × Memory)
readline_from [] buf i mem = none
readline_from (negsuc n ∷ input) buf i mem = some (null, mem)
readline_from (pos c ∷ input) buf i mem =
    let (i', mem') = edit buf c i mem in
    let later = readline_from input buf i' mem' in
    if leb 32 c && ltb i (bufsize - 1)
    then later
    else if (c == 8) && ltb 0 i
    then later
    else if (c == 10) || (c == 13)
    then some (buf, update mem (buf + i) 0)
    else later

unfoldable pub readline : (input : List ℤ) → (buf : Ptr) → Memory → Option (Ptr × Memory)
unfolding readline_from
readline input buf mem = readline_from input buf 0 mem
