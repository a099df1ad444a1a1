-- ===== src/Libs/Strings/Text.antt =====
-- The functions on strings that a null byte ends, as functions on lists of bytes.
use os_lab.Base.{
  ◌↔◌, ◌⊎◌, Ptr, null, ℕ, suc, ◌+◌, ◌<◌, ◌≤◌, ◌≡◌, ◌≢◌, Bool-cases, inl, inr, true, false, ◌&&◌,
  ◌==◌, ==_ne, ltb, leb, if◌then◌else◌, update, arith, refl, ◌∙◌, ap, List, [], ◌∷◌, length, has,
  some, Ends,
}
use os_lab.Base.Int.{ℤ, pos}
use os_lab.Libs.Strings.Defs.{
  Memory, difference, strlen, strlen_from, strnlen, strnlen_from, strcpy, strcmp, strchr, strfind,
}

-- At `s` stands the string `cs`, with the null byte behind it.
abbrev pub IsString : Memory → Ptr → List ℕ → Type 0
IsString mem s [] = mem s ≡ 0
IsString mem s (c ∷ cs) = (mem s ≡ c) × (c ≢ 0) × IsString mem (suc s) cs

strlen_from_lem :
    (f s cnt : ℕ) (mem : Memory) (cs : List ℕ)
    → IsString mem s cs
    → length cs < f
    → strlen_from f s cnt mem ≡ some (cnt + length cs)
unfolding strlen_from
strlen_from_lem Prim.Native.Nat.zero s cnt mem cs i lt = absurd (omega arith)
strlen_from_lem (suc f) s cnt mem [] i lt = rw i (ap some (omega arith))
strlen_from_lem (suc f) s cnt mem (c ∷ cs) i lt =
    rw (i.0, ==_ne c 0 i.1, strlen_from_lem f (suc s) (suc cnt) mem cs i.2 (omega arith))
      (ap some (omega arith))

-- With fuel above the length, strlen returns the length of the string.
pub strlen_lem :
    (fuel s : ℕ) (mem : Memory) (cs : List ℕ)
    → IsString mem s cs
    → length cs < fuel
    → strlen fuel s mem ≡ some (length cs)
unfolding strlen
strlen_lem fuel s mem cs i lt = strlen_from_lem fuel s 0 mem cs i lt ∙ ap some (omega arith)

strnlen_from_lem :
    (len s cnt : ℕ) (mem : Memory) (cs : List ℕ)
    → IsString mem s cs
    → strnlen_from len s cnt mem ≡ (if ltb (length cs) len then cnt + length cs else cnt + len)
unfolding strnlen_from
strnlen_from_lem Prim.Native.Nat.zero s cnt mem cs i = ground arith
strnlen_from_lem (suc len) s cnt mem [] i = rw i (ground arith)
strnlen_from_lem (suc len) s cnt mem (c ∷ cs) i =
    rw (i.0, ==_ne c 0 i.1, strnlen_from_lem len (suc s) (suc cnt) mem cs i.2) (ground arith)

pub strnlen_lem :
    (s len : ℕ) (mem : Memory) (cs : List ℕ)
    → IsString mem s cs
    → strnlen s len mem ≡ (if ltb (length cs) len then length cs else len)
unfolding strnlen
strnlen_lem s len mem cs i = strnlen_from_lem len s 0 mem cs i ∙ ground arith

-- The two strings as strcmp reads them, up to the first difference.
abbrev pub first_difference : List ℕ → List ℕ → ℤ
first_difference [] [] = pos 0
first_difference [] (d ∷ ds) = difference 0 d
first_difference (c ∷ cs) [] = difference c 0
first_difference (c ∷ cs) (d ∷ ds) = if c == d then first_difference cs ds else difference c d

strcmp_runs :
    (f s1 s2 : ℕ) (mem : Memory) (cs ds : List ℕ)
    → IsString mem s1 cs
    → IsString mem s2 ds
    → length cs < f
    → strcmp f s1 s2 mem ≡ some (first_difference cs ds)
unfolding strcmp
strcmp_runs Prim.Native.Nat.zero s1 s2 mem cs ds i j lt = absurd (omega arith)
strcmp_runs (suc f) s1 s2 mem [] [] i j lt = rw (i, j)
strcmp_runs (suc f) s1 s2 mem [] (d ∷ ds) i j lt = rw (i, j.0)
strcmp_runs (suc f) s1 s2 mem (c ∷ cs) [] i j lt = rw (i.0, j, ==_ne c 0 i.1)
strcmp_runs (suc f) s1 s2 mem (c ∷ cs) (d ∷ ds) i j lt =
    rw (i.0, j.0, ==_ne c 0 i.1, strcmp_runs f (suc s1) (suc s2) mem cs ds i.2 j.2 (omega arith))
      (ground arith)

difference_zero : (a b : ℕ) → difference a b ≡ pos 0 → a ≡ b
difference_zero a b e = ground arith

same_strings :
    (s1 s2 : ℕ) (mem : Memory) (cs ds : List ℕ)
    → IsString mem s1 cs
    → IsString mem s2 ds
    → (first_difference cs ds ≡ pos 0 → cs ≡ ds) × (cs ≡ ds → first_difference cs ds ≡ pos 0)
same_strings s1 s2 mem [] [] i j = ((λ e. refl), λ e. refl)
same_strings s1 s2 mem [] (d ∷ ds) i j = (ground (arith, difference_zero 0 d, j.1), ground arith)
same_strings s1 s2 mem (c ∷ cs) [] i j = (ground (arith, difference_zero c 0, i.1), ground arith)
same_strings s1 s2 mem (c ∷ cs) (d ∷ ds) i j =
    let ih = same_strings (suc s1) (suc s2) mem cs ds i.2 j.2 in
    let z = difference_zero c d in (ground (arith, ih, z), ground (arith, ih, z))

-- With fuel above the length of the first string, strcmp returns, and answers 0 exactly if the
-- strings are the same.
pub strcmp_lem :
    (fuel s1 s2 : ℕ) (mem : Memory) (cs ds : List ℕ)
    → IsString mem s1 cs
    → IsString mem s2 ds
    → length cs < fuel
    → Ends (strcmp fuel s1 s2 mem) λ r. (r ≡ pos 0) ↔ (cs ≡ ds)
strcmp_lem fuel s1 s2 mem cs ds i j lt = (
  first_difference cs ds,
  strcmp_runs fuel s1 s2 mem cs ds i j lt,
  same_strings s1 s2 mem cs ds i j,
)

-- Where `c` stands in the string, or its length.
abbrev pub index_of : ℕ → List ℕ → ℕ
index_of c [] = 0
index_of c (x ∷ xs) = if x == c then 0 else suc (index_of c xs)

strchr_runs :
    (f s c : ℕ) (mem : Memory) (cs : List ℕ)
    → IsString mem s cs
    → length cs < f
    → strchr f s c mem ≡ some (if has c cs then s + index_of c cs else null)
unfolding strchr
strchr_runs Prim.Native.Nat.zero s c mem cs i lt = absurd (omega arith)
strchr_runs (suc f) s c mem [] i lt = rw i
strchr_runs (suc f) s c mem (x ∷ cs) i lt =
    rw (i.0, ==_ne x 0 i.1, strchr_runs f (suc s) c mem cs i.2 (omega arith)) (ground arith)

IsString-frame :
    (mem mem' : Memory) (s : ℕ) (cs : List ℕ)
    → IsString mem s cs
    → ((q : ℕ) → s ≤ q → q ≤ s + length cs → mem' q ≡ mem q)
    → IsString mem' s cs
IsString-frame mem mem' s [] i h = h s (omega arith) (omega arith) ∙ i
IsString-frame mem mem' s (c ∷ cs) i h = (
  h s (omega arith) (omega arith) ∙ i.0,
  i.1,
  IsString-frame mem mem' (suc s) cs i.2 (λ q le le'. h q (omega arith) (omega arith)),
)

-- The run of strcpy, and what it leaves alone.
strcpy_runs :
    (fuel dst src : ℕ) (mem : Memory) (cs : List ℕ)
    → IsString mem src cs
    → length cs < fuel
    → (dst + length cs < src) ⊎ (src + length cs < dst)
    → Ends (strcpy fuel dst src mem) λ mem'.
      IsString mem' dst cs × ((q : ℕ) → (q < dst) ⊎ (dst + length cs < q) → mem' q ≡ mem q)
unfolding strcpy
strcpy_runs Prim.Native.Nat.zero dst src mem cs i lt apart = absurd (omega arith)
strcpy_runs (suc f) dst src mem [] i lt apart =
    (update mem dst (mem src), rw i, (ground (arith, i), λ q o. ground arith))
strcpy_runs (suc f) dst src mem (c ∷ cs) i lt apart =
    let continues : (mem src == 0) ≡ false = ground (arith, i.0, i.1) in
    let (mem', run, (copy, same)) =
      strcpy_runs f (suc dst) (suc src) (update mem dst (mem src)) cs
        (IsString-frame mem (update mem dst (mem src)) (suc src) cs i.2 (λ q le le'. ground arith))
        (omega arith) (ground arith) in
    (
      mem',
      rw continues run,
      (
        (same dst (inl (omega arith)) ∙ ground (arith, i.0), i.1, copy),
        λ q o. same q (ground arith) ∙ ground arith,
      ),
    )

strfind_runs :
    (f s c : ℕ) (mem : Memory) (cs : List ℕ)
    → IsString mem s cs
    → length cs < f
    → strfind f s c mem ≡ some (s + index_of c cs)
unfolding strfind
strfind_runs Prim.Native.Nat.zero s c mem cs i lt = absurd (omega arith)
strfind_runs (suc f) s c mem [] i lt = rw i (ap some (omega arith))
strfind_runs (suc f) s c mem (x ∷ cs) i lt =
    rw (i.0, ==_ne x 0 i.1, strfind_runs f (suc s) c mem cs i.2 (omega arith)) (ground arith)

-- With fuel above the length, strchr and strfind find the first place of the byte in the string;
-- where it does not occur, strchr answers NULL and strfind the place of the null byte.
pub strchr_lem :
    (fuel s c : ℕ) (mem : Memory) (cs : List ℕ)
    → IsString mem s cs
    → length cs < fuel
    → (strchr fuel s c mem ≡ some (if has c cs then s + index_of c cs else null))
      × (strfind fuel s c mem ≡ some (s + index_of c cs))
strchr_lem fuel s c mem cs i lt =
    (strchr_runs fuel s c mem cs i lt, strfind_runs fuel s c mem cs i lt)

-- With fuel above the length of the string, and where the string with its null byte and the place
-- for it do not overlap, strcpy makes a copy of the string and changes no byte outside that place.
pub strcpy_lem :
    (fuel dst src : ℕ) (mem : Memory) (cs : List ℕ)
    → IsString mem src cs
    → length cs < fuel
    → (dst + length cs < src) ⊎ (src + length cs < dst)
    → Ends (strcpy fuel dst src mem) λ mem'.
      IsString mem' dst cs
      × ((q : ℕ) → ((leb dst q && leb q (dst + length cs)) ≡ true) ⊎ (mem' q ≡ mem q))
strcpy_lem fuel dst src mem cs i lt apart =
    let (mem', run, (copy, same)) = strcpy_runs fuel dst src mem cs i lt apart in
    (
      mem',
      run,
      (
        copy,
        λ q. elim (Bool-cases (leb dst q && leb q (dst + length cs))) [
          | inl e ↦ inl e
          | inr e ↦ inr (same q (ground arith))
        ],
      ),
    )
