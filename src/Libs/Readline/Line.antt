-- ===== src/Libs/Readline/Line.antt =====
-- The line that `readline` returns.
use os_lab.Base.{
  [], ◌∷◌, ℕ, ◌+◌, ◌-◌, ◌%◌, ◌≤◌, ◌<◌, ◌≡◌, ◌≢◌, ◌⊎◌, ◌==◌, leb, ltb, ◌&&◌, ◌||◌, true, false,
  Bool-cases, if◌then◌else◌, Ptr, update, Option, some, none, List, length, refl, arith, inl, inr,
  Ends, subst,
}
use os_lab.Base.Int.{ℤ, pos, negsuc}
use os_lab.Libs.Strings.Defs.{Memory}
use os_lab.Libs.Strings.Text.{IsString}
use os_lab.Libs.Readline.Defs.{bufsize, readline_from, readline}

-- `kept` is the line so far, last character first.
abbrev pub drop_last : List ℕ → List ℕ
drop_last [] = []
drop_last (c ∷ kept) = kept

abbrev pub rev_append : List ℕ → List ℕ → List ℕ
rev_append [] cs = cs
rev_append (c ∷ kept) cs = rev_append kept (c ∷ cs)

-- The line that the input stands for: a backspace takes back the last character that is left, a
-- line keeps at most 1023, and other control characters do not count. `none` if the input has no
-- end of line, or an error before it.
abbrev pub line_of : List ℤ → List ℕ → Option (List ℕ)
line_of [] kept = none
line_of (negsuc n ∷ input) kept = none
line_of (pos c ∷ input) kept =
    let typed = line_of input (c ∷ kept) in
    let erased = line_of input (drop_last kept) in
    let other = line_of input kept in
    if leb 32 c && ltb (length kept) 1023
    then typed
    else if c == 8
    then erased
    else if (c == 10) || (c == 13)
    then some (rev_append kept [])
    else other

abbrev pub Bytes : List ℤ → Type 0
Bytes [] = Unit {0}
Bytes (pos c ∷ input) = (c < 256) × Bytes input
Bytes (negsuc n ∷ input) = Bytes input

abbrev Holds : Memory → Ptr → List ℕ → Type 0
Holds mem buf [] = Unit {0}
Holds mem buf (c ∷ kept) = (mem (buf + length kept) ≡ c) × (c ≢ 0) × Holds mem buf kept

Holds-update :
    (mem : Memory) (buf a c : ℕ) (kept : List ℕ)
    → buf + length kept ≤ a
    → Holds mem buf kept
    → Holds (update mem a c) buf kept
Holds-update mem buf a c [] le h = tt
Holds-update mem buf a c (d ∷ kept) le h =
    (ground (arith, h.0), h.1, Holds-update mem buf a c kept (omega arith) h.2)

Holds-drop_last :
    (mem : Memory) (buf : ℕ) (kept : List ℕ) → Holds mem buf kept → Holds mem buf (drop_last kept)
Holds-drop_last mem buf [] h = tt
Holds-drop_last mem buf (c ∷ kept) h = h.2

length-drop_last : (kept : List ℕ) → length (drop_last kept) ≡ length kept - 1
length-drop_last [] = omega arith
length-drop_last (c ∷ kept) = omega arith

Holds-IsString :
    (mem : Memory) (buf : ℕ) (kept cs : List ℕ)
    → Holds mem buf kept
    → IsString mem (buf + length kept) cs
    → IsString mem buf (rev_append kept cs)
Holds-IsString mem buf [] cs h i = subst (λ a. IsString mem a cs) (omega arith) i
Holds-IsString mem buf (c ∷ kept) cs h i =
    Holds-IsString mem buf kept (c ∷ cs) h.2
      (h.0, h.1, subst (λ a. IsString mem a cs) (omega arith) i)

-- The memory outside the buffer is as it was.
abbrev pub Outside : Ptr → Memory → Memory → Type 0
Outside buf mem mem' = (q : Ptr) → ((leb buf q && ltb q (buf + bufsize)) ≡ true) ⊎ (mem' q ≡ mem q)

Outside-update :
    (buf : Ptr) (mem mem' : Memory) (i c : ℕ)
    → i < bufsize
    → Outside buf mem mem'
    → Outside buf mem (update mem' (buf + i) c)
Outside-update buf mem mem' i c lt o q = elim (o q) [
  | inl e ↦ inl e
  | inr e ↦ elim (Bool-cases (leb buf q && ltb q (buf + bufsize))) [
    | inl inside ↦ inl inside
    | inr out ↦ inr (ground (arith, e))
  ]
]

line_lem :
    (input : List ℤ) (buf i : ℕ) (kept : List ℕ) (mem0 mem : Memory) (text : List ℕ)
    → Bytes input
    → Holds mem buf kept
    → i ≡ length kept
    → i < bufsize
    → Outside buf mem0 mem
    → line_of input kept ≡ some text
    → Ends
        (readline_from input buf i mem)
        λ (p, mem'). (p ≡ buf) × IsString mem' buf text × Outside buf mem0 mem'
unfolding readline_from
line_lem [] buf i kept mem0 mem text b h n lt o e = absurd (ground arith)
line_lem (negsuc k ∷ input) buf i kept mem0 mem text b h n lt o e = absurd (ground arith)
line_lem (pos c ∷ input) buf i kept mem0 mem text b h n lt o e =
    elim (Bool-cases (leb 32 c && ltb i 1023)) [
      | inl typed ↦
          let typed' : (leb 32 c && ltb (length kept) 1023) ≡ true = ground arith in
          let m = update mem (buf + i) (c % 256) in
          let holds : Holds m buf (c ∷ kept) = (
            ground (arith, b.0),
            ground arith,
            Holds-update mem buf (buf + i) (c % 256) kept (omega arith) h,
          ) in
          rw typed (
            line_lem input buf (i + 1) (c ∷ kept) mem0 m text b.1 holds (omega arith) (ground arith)
              (Outside-update buf mem0 mem i (c % 256) lt o) (rw typed' at e))
      | inr no_type ↦
          let no_type' : (leb 32 c && ltb (length kept) 1023) ≡ false = ground arith in
          elim (Bool-cases (c == 8)) [
            | inl back ↦
                let e' : line_of input (drop_last kept) ≡ some text = rw (no_type', back) at e in
                let h' = Holds-drop_last mem buf kept h in
                elim (Bool-cases (ltb 0 i)) [
                  | inl some_left ↦
                      rw (no_type, back, some_left)
                        (line_lem input buf (i - 1) (drop_last kept) mem0 mem text b.1 h'
                          (omega (arith, length-drop_last kept)) (omega arith) o e')
                  | inr none_left ↦
                      let no_end : ((c == 10) || (c == 13)) ≡ false = ground arith in
                      rw (no_type, back, none_left, no_end)
                        (line_lem input buf i (drop_last kept) mem0 mem text b.1 h'
                          (ground (arith, length-drop_last kept)) lt o e')
                ]
            | inr no_back ↦ elim (Bool-cases ((c == 10) || (c == 13))) [
              | inl line_end ↦
                  let e' : some (rev_append kept []) ≡ some text =
                    rw (no_type', no_back, line_end) at e in
                  let m = update mem (buf + i) 0 in
                  rw (no_type, no_back, line_end)
                    (
                      (buf, m),
                      refl,
                      (
                        refl,
                        subst (λ cs. IsString m buf cs) (ground arith)
                            (Holds-IsString m buf kept []
                              (Holds-update mem buf (buf + i) 0 kept (omega arith) h)
                              (ground arith)),
                        Outside-update buf mem0 mem i 0 lt o,
                      ),
                    )
              | inr other ↦
                  rw (no_type, no_back, other)
                    (line_lem input buf i kept mem0 mem text b.1 h n lt o
                      (rw (no_type', no_back, other) at e))
            ]
          ]
    ]

-- Of bytes that hold an end of line before an error, readline makes the line that they stand for,
-- with backspaces carried out and what is beyond 1023 characters left out, with a null byte behind
-- it, in the buffer, and changes nothing outside the 1024 bytes of the buffer.
pub readline_lem :
    (input : List ℤ) (buf : Ptr) (mem : Memory) (text : List ℕ)
    → Bytes input
    → line_of input [] ≡ some text
    → Ends
        (readline input buf mem)
        λ (p, mem'). (p ≡ buf) × IsString mem' buf text × Outside buf mem mem'
unfolding readline
readline_lem input buf mem text b e =
    line_lem input buf 0 [] mem mem text b tt refl (omega arith) (λ q. inr refl) e
