-- ===== src/Mm/Areas/Check.antt =====
-- `user_mem_check`: what it says of a range is what holds of each of its addresses.
use os_lab.Base.{
  ◌^◌, ◌%◌, ◌∙◌, sym, some, suc, refl, ◌↔◌, false, Ends, ==_ne, inr, inl, ◌+◌, Bool-cases, true,
  ◌&&◌, ltb, length, arith, ◌==◌, if◌then◌else◌, ◌<◌, null, ◌≡◌, ◌≤◌, ◌∷◌, has, not, ◌≢◌, ℕ, Bool,
  List, Ptr, [],
}
use os_lab.Mm.Areas.Defs.{
  Vma, Spaces, contains, permits, find_vma, check_areas, user_access, user_mem_check,
}
use os_lab.Mm.Areas.Sorted.{Areas, IsSpace, area_of, area_of-member, has-area_of, contains-area_of}
use os_lab.Mm.Areas.Find.{find_vma_lem}

-- Some area holds the address and lets the access pass.
abbrev pub allowed : (Ptr → Vma) → List Ptr → Bool → ℕ → Bool
allowed f xs write a = not (area_of f a xs == null) && permits (f (area_of f a xs)) write a

-- The number of the areas that reach beyond an address.
abbrev beyond : (Ptr → Vma) → ℕ → List Ptr → ℕ
beyond f a [] = 0
beyond f a (x ∷ xs) = (if ltb a (f x).vm_end then 1 else 0) + beyond f a xs

beyond_le : (f : Ptr → Vma) (a : ℕ) (xs : List Ptr) → beyond f a xs ≤ length xs
beyond_le f a [] = omega arith
beyond_le f a (x ∷ xs) = ground (arith, beyond_le f a xs)

beyond_mono : (f : Ptr → Vma) (a b : ℕ) (xs : List Ptr) → a ≤ b → beyond f b xs ≤ beyond f a xs
beyond_mono f a b [] le = omega arith
beyond_mono f a b (x ∷ xs) le = ground (arith, beyond_mono f a b xs le)

beyond_lt :
    (f : Ptr → Vma) (a : ℕ) (xs : List Ptr) (q : Ptr)
    → has q xs ≡ true
    → a < (f q).vm_end
    → beyond f (f q).vm_end xs < beyond f a xs
beyond_lt f a [] q i lt = ground arith
beyond_lt f a (x ∷ xs) q i lt = elim (Bool-cases (q == x)) [
  | inl e ↦ ground (arith, beyond_mono f a (f q).vm_end xs)
  | inr e ↦ ground (arith, beyond_lt f a xs q)
]

permits_later :
    (v : Vma) (write : Bool) (a b : ℕ) → a ≤ b → permits v write a ≡ true → permits v write b ≡ true
permits_later v write a b le p = ground arith

-- Every address of the range is in an area that lets the access pass.
abbrev pub Allowed : (Ptr → Vma) → List Ptr → Bool → (start finish : ℕ) → Type 0
Allowed f xs write start finish = (a : ℕ) → start ≤ a → a < finish → allowed f xs write a ≡ true

-- An area that holds `start` and lets the access pass decides the range up to its end.
Allowed-step :
    (f : Ptr → Vma) (xs : List Ptr) (write : Bool) (start finish : ℕ)
    → Areas f 0 xs
    → area_of f start xs ≢ null
    → permits (f (area_of f start xs)) write start ≡ true
    → Allowed f xs write (f (area_of f start xs)).vm_end finish
    → Allowed f xs write start finish
Allowed-step f xs write start finish ar ne p h a le lt =
    let x = area_of f start xs in
    let c : contains (f x) start ≡ true = contains-area_of f start xs ne in
    elim (Bool-cases (ltb a (f x).vm_end)) [
      | inl e ↦
          let same : area_of f a xs ≡ x =
            area_of-member f 0 a xs x ar (has-area_of f start xs ne) (ground arith) in
          rw (same, ==_ne x null ne) (permits_later (f x) write start a le p)
      | inr e ↦ h a (ground arith) lt
    ]

pub record Checked (s : Spaces) (mm : Ptr) (xs : List Ptr) (write : Bool) (start finish : ℕ)
    (b : Bool) (s' : Spaces) : Type 0 where
  pub space : IsSpace s' mm xs
  pub same : s'.vmas ≡ s.vmas
  pub decides : (b ≡ true) ↔ Allowed s.vmas xs write start finish

module _ (mm : Ptr) (xs : List Ptr) (write : Bool) (finish : ℕ) (ne : mm ≢ null) where
  -- The loop has nothing left to look at.
  past :
      (s : Spaces) (start : ℕ)
      → IsSpace s mm xs
      → finish ≤ start
      → Checked s mm xs write start finish true s
  past s start is le = record {
    space = is;
    same = refl;
    decides = (λ e a l h. absurd (omega arith), λ h. refl);
  }

  -- The loop stops at an address that is not allowed.
  refused :
      (s s' : Spaces) (start : ℕ)
      → IsSpace s' mm xs
      → s'.vmas ≡ s.vmas
      → start < finish
      → allowed s.vmas xs write start ≡ false
      → Checked s mm xs write start finish false s'
  refused s s' start is e lt out = record {
    space = is;
    same = e;
    decides = (λ f. ground arith, λ h. sym out ∙ h start (omega arith) lt);
  }

  -- An area lets the access pass, and the loop goes on at its end.
  passed :
      (s s1 s2 : Spaces) (b : Bool) (start : ℕ)
      → IsSpace s mm xs
      → s1.vmas ≡ s.vmas
      → area_of s.vmas start xs ≢ null
      → permits (s.vmas (area_of s.vmas start xs)) write start ≡ true
      → Checked s1 mm xs write (s.vmas (area_of s.vmas start xs)).vm_end finish b s2
      → Checked s mm xs write start finish b s2
  passed s s1 s2 b start is same found fine k =
      let c = contains-area_of s.vmas start xs found in
      let (to, from) = rw same at k.decides in
      record {
        space = k.space;
        same = k.same ∙ same;
        decides = (
          λ e. Allowed-step s.vmas xs write start finish is.areas found fine (to e),
          λ h. from (λ a le lt. h a (ground arith) lt),
        );
      }

  check_areas_lem :
      (n : ℕ) (s : Spaces) (start : ℕ)
      → IsSpace s mm xs
      → beyond s.vmas start xs < n
      → Ends
          (check_areas n mm start finish write s)
          λ (b, s'). Checked s mm xs write start finish b s'
  unfolding check_areas
  check_areas_lem Prim.Native.Nat.zero s start is lt = absurd (omega arith)
  check_areas_lem (suc n) s start is lt =
      let ((vma, s1), run, (e, is1, same)) = find_vma_lem s mm xs start is ne in
      let run' : find_vma mm start s ≡ some (area_of s.vmas start xs, s1) = rw (sym e) run in
      let x = area_of s.vmas start xs in
      elim (Bool-cases (ltb start finish)) [
        | inr ge ↦ rw ge ((true, s), refl, past s start is (ground arith))
        | inl l ↦ elim (Bool-cases (x == null)) [
          | inl nil ↦
              rw (l, run', nil)
                ((false, s1), refl, refused s s1 start is1 same (ground arith) (ground arith))
          | inr found ↦
              let c : contains (s.vmas x) start ≡ true =
                contains-area_of s.vmas start xs (ground arith) in
              let inside : ltb start (s.vmas x).vm_start ≡ false = ground arith in
              elim (Bool-cases (permits (s.vmas x) write start)) [
                | inr out ↦
                    rw (l, run', found, same, inside, out)
                      ((false, s1), refl, refused s s1 start is1 same (ground arith) (ground arith))
                | inl fine ↦
                    let ((b, s2), later, k) = check_areas_lem n s1 (s.vmas x).vm_end is1 (
                      rw same (
                        omega (
                          arith,
                          beyond_lt s.vmas start xs x (has-area_of s.vmas start xs (ground arith))
                              (ground arith),
                        ))) in
                    rw (l, run', found, same, inside, fine, later)
                      ((b, s2), refl, passed s s1 s2 b start is same (ground arith) fine k)
              ]
        ]
      ]

-- user_mem_check in a sound space, which is not NULL, ends, leaves the areas as they are, and
-- answers true exactly if the range lies in the user's addresses and each of its addresses is in
-- an area of the space that lets the access pass.
pub user_mem_check_lem :
    (mm : Ptr) (xs : List Ptr) (write : Bool) (addr len : ℕ) (s : Spaces)
    → mm ≢ null
    → IsSpace s mm xs
    → Ends (user_mem_check mm addr len write s) λ (b, s').
      IsSpace s' mm xs
      × (s'.vmas ≡ s.vmas)
      × ((b ≡ true) ↔ (
          (user_access addr ((addr + len) % 2 ^ 64) ≡ true)
          × Allowed s.vmas xs write addr ((addr + len) % 2 ^ 64)))
unfolding user_mem_check
user_mem_check_lem mm xs write addr len s ne is =
    let finish = (addr + len) % 2 ^ 64 in
    elim (Bool-cases (user_access addr finish)) [
      | inl ok ↦
          let ((b, s'), run, k) =
            check_areas_lem mm xs write finish ne ((s.mms mm).map_count + 1) s addr is
              (omega (arith, is.counted, beyond_le s.vmas addr xs)) in
          rw (==_ne mm null ne, ok, run)
            ((b, s'), refl, (k.space, k.same, (λ e. (refl, k.decides.0 e), λ h. k.decides.1 h.1)))
      | inr out ↦
          rw (==_ne mm null ne, out)
            ((false, s), refl, (is, refl, (λ e. absurd (ground arith), λ h. h.0)))
    ]
