-- ===== src/Libs/Strings/Defs.antt =====
-- The functions of libs/string.c. Memory maps addresses to bytes. A loop that a count ends recurses
-- on the count; one that a null byte ends runs on fuel, and `none` means that the fuel ran out.
use os_lab.Base.{
  Ptr, null, ℕ, suc, ◌+◌, ◌-◌, not, ◌&&◌, ◌==◌, ltb, leb, if◌then◌else◌, update, Option, none, some,
}
use os_lab.Base.Int.{ℤ, pos, negsuc}

abbrev pub Memory : Type 0
Memory = Ptr → ℕ

-- (int)((unsigned char)a - (unsigned char)b)
abbrev pub difference : ℕ → ℕ → ℤ
difference a b = if leb b a then pos (a - b) else negsuc (b - a - 1)

unfoldable pub strlen_from : ℕ → (s cnt : ℕ) → Memory → Option ℕ
strlen_from Prim.Native.Nat.zero s cnt mem = none
strlen_from (suc f) s cnt mem =
    let rest = strlen_from f (suc s) (suc cnt) mem in if mem s == 0 then some cnt else rest

unfoldable pub strlen : (fuel : ℕ) → Ptr → Memory → Option ℕ
unfolding strlen_from
strlen fuel s mem = strlen_from fuel s 0 mem

-- `len` counts down what `cnt` may still grow.
unfoldable pub strnlen_from : (len s cnt : ℕ) → Memory → ℕ
strnlen_from Prim.Native.Nat.zero s cnt mem = cnt
strnlen_from (suc len) s cnt mem =
    let rest = strnlen_from len (suc s) (suc cnt) mem in if mem s == 0 then cnt else rest

unfoldable pub strnlen : Ptr → ℕ → Memory → ℕ
unfolding strnlen_from
strnlen s len mem = strnlen_from len s 0 mem

unfoldable pub strcpy : (fuel : ℕ) → (dst src : Ptr) → Memory → Option Memory
strcpy Prim.Native.Nat.zero dst src mem = none
strcpy (suc f) dst src mem =
    let written = update mem dst (mem src) in
    let rest = strcpy f (suc dst) (suc src) written in if mem src == 0 then some written else rest

unfoldable pub strncpy : (dst src : Ptr) → ℕ → Memory → Memory
strncpy dst src Prim.Native.Nat.zero mem = mem
strncpy dst src (suc len) mem =
    strncpy (suc dst) (if mem src == 0 then src else suc src) len (update mem dst (mem src))

unfoldable pub strcmp : (fuel : ℕ) → (s1 s2 : Ptr) → Memory → Option ℤ
strcmp Prim.Native.Nat.zero s1 s2 mem = none
strcmp (suc f) s1 s2 mem =
    let rest = strcmp f (suc s1) (suc s2) mem in
    if not (mem s1 == 0) && (mem s1 == mem s2) then rest else some (difference (mem s1) (mem s2))

unfoldable pub strncmp : (s1 s2 : Ptr) → ℕ → Memory → ℤ
strncmp s1 s2 Prim.Native.Nat.zero mem = pos 0
strncmp s1 s2 (suc n) mem =
    let rest = strncmp (suc s1) (suc s2) n mem in
    if not (mem s1 == 0) && (mem s1 == mem s2) then rest else difference (mem s1) (mem s2)

unfoldable pub strchr : (fuel : ℕ) → Ptr → ℕ → Memory → Option Ptr
strchr Prim.Native.Nat.zero s c mem = none
strchr (suc f) s c mem =
    let rest = strchr f (suc s) c mem in
    if mem s == 0 then some null else if mem s == c then some s else rest

unfoldable pub strfind : (fuel : ℕ) → Ptr → ℕ → Memory → Option Ptr
strfind Prim.Native.Nat.zero s c mem = none
strfind (suc f) s c mem =
    let rest = strfind f (suc s) c mem in
    if mem s == 0 then some s else if mem s == c then some s else rest

unfoldable pub memset : Ptr → ℕ → ℕ → Memory → Memory
memset s c Prim.Native.Nat.zero mem = mem
memset s c (suc n) mem = memset (suc s) c n (update mem s c)

-- while (n -- > 0) *d ++ = *s ++;
unfoldable pub copy_forward : (d s : Ptr) → ℕ → Memory → Memory
copy_forward d s Prim.Native.Nat.zero mem = mem
copy_forward d s (suc n) mem = copy_forward (suc d) (suc s) n (update mem d (mem s))

-- while (n -- > 0) *-- d = *-- s;
unfoldable pub copy_backward : (d s : Ptr) → ℕ → Memory → Memory
copy_backward d s Prim.Native.Nat.zero mem = mem
copy_backward d s (suc n) mem = copy_backward (d - 1) (s - 1) n (update mem (d - 1) (mem (s - 1)))

unfoldable pub memmove : (dst src : Ptr) → ℕ → Memory → Memory
unfolding copy_forward copy_backward
memmove dst src n mem =
    if ltb src dst && ltb dst (src + n)
    then copy_backward (dst + n) (src + n) n mem
    else copy_forward dst src n mem

unfoldable pub memcpy : (dst src : Ptr) → ℕ → Memory → Memory
unfolding copy_forward
memcpy dst src n mem = copy_forward dst src n mem

unfoldable pub memcmp : (v1 v2 : Ptr) → ℕ → Memory → ℤ
memcmp s1 s2 Prim.Native.Nat.zero mem = pos 0
memcmp s1 s2 (suc n) mem =
    let rest = memcmp (suc s1) (suc s2) n mem in
    if mem s1 == mem s2 then rest else difference (mem s1) (mem s2)
