-- ===== src/Mm/Areas/Map.antt =====
-- `mm_map`: a range that no area meets becomes an area; one that has an area inside it, but none at
-- its start, stops the kernel.
use os_lab.Base.{
  ltb, ==_ne, ==_refl, some, sym, ◌&&◌, ◌∙◌, ◌^◌, ap, ◌%◌, none, if◌then◌else◌, ◌⊎◌, ◌+◌, Ends, ◌≢◌,
  refl, [], inr, inl, arith, update_ne, ◌∷◌, ◌||◌, update, Bool-cases, true, false, ◌==◌, ◌≡◌, has,
  ◌<◌, List, ℕ, Ptr, null,
}
use os_lab.Base.Int.{pos}
use os_lab.Mm.Areas.Defs.{
  e_inval, e_no_mem, Vma, Spaces, find_vma, vma_create, insert_vma_struct, user_access, round_down,
  round_up, mm_map,
}
use os_lab.Mm.Areas.Sorted.{Areas, IsSpace, area_of, is_clear, contains-area_of}
use os_lab.Mm.Areas.Find.{find_vma_lem}
use os_lab.Mm.Areas.Insert.{insert_vma_struct_lem}

module _ (f : Ptr → Vma) (new : Ptr) (v : Vma) where
  Areas-fresh :
      (lo : ℕ) (xs : List Ptr) → has new xs ≡ false → Areas f lo xs → Areas (update f new v) lo xs
  Areas-fresh lo [] o a = tt
  Areas-fresh lo (x ∷ xs) o a =
      rw (update_ne f new x v (ground arith))
        (a.0, a.1, Areas-fresh (f x).vm_end xs (ground arith) a.2)

  is_clear-fresh :
      (from to : ℕ) (xs : List Ptr)
      → has new xs ≡ false
      → is_clear (update f new v) from to xs ≡ is_clear f from to xs
  is_clear-fresh from to [] o = refl
  is_clear-fresh from to (x ∷ xs) o = ground (arith, is_clear-fresh from to xs)

-- A clear range holds no area's address.
area_of-clear :
    (f : Ptr → Vma) (lo from to : ℕ) (xs : List Ptr)
    → Areas f lo xs
    → from < to
    → is_clear f from to xs ≡ true
    → area_of f from xs ≡ null
area_of-clear f lo from to [] a lt c = refl
area_of-clear f lo from to (x ∷ xs) a lt c =
    ground (arith, a.1, area_of-clear f (f x).vm_end from to xs a.2)

-- The state after `vma_create`.
abbrev created : (new : Ptr) → (start finish flags : ℕ) → Spaces → Spaces
created new start finish flags s = record s {
  vmas =
      update s.vmas new
        (record (s.vmas new) { vm_start = start; vm_end = finish; vm_flags = flags });
}

created-IsSpace :
    (s : Spaces) (mm new : Ptr) (xs : List Ptr) (start finish flags : ℕ)
    → IsSpace s mm xs
    → has new xs ≡ false
    → IsSpace (created new start finish flags s) mm xs
created-IsSpace s mm new xs start finish flags is o = record {
  ring = is.ring;
  areas = Areas-fresh s.vmas new _ 0 xs o is.areas;
  counted = is.counted;
  no_null = is.no_null;
  cached = is.cached;
}

-- The space after a successful call: its areas are the old ones, whose records are as they were, and
-- the new one, with all its fields.
pub record Mapped (f : Ptr → Vma) (mm : Ptr) (xs : List Ptr) (new : Ptr) (start finish flags : ℕ)
    (s' : Spaces) : Type 0 where
  pub now : List Ptr
  pub space : IsSpace s' mm now
  pub members : (q : Ptr) → has q now ≡ ((q == new) || has q xs)
  pub made :
      s'.vmas new ≡ record { vm_mm = mm; vm_start = start; vm_end = finish; vm_flags = flags }
  pub others : (q : Ptr) → q ≢ new → s'.vmas q ≡ f q

added :
    (s : Spaces) (mm new : Ptr) (xs : List Ptr) (start finish flags : ℕ)
    → IsSpace s mm xs
    → new ≢ null
    → has new (mm ∷ xs) ≡ false
    → start < finish
    → ((is_clear s.vmas start finish xs ≡ true)
        × Ends
            (insert_vma_struct mm new (created new start finish flags s))
            λ s'. Mapped s.vmas mm xs new start finish flags s')
      ⊎ ((is_clear s.vmas start finish xs ≡ false)
          × (insert_vma_struct mm new (created new start finish flags s) ≡ none))
added s mm new xs start finish flags is ne o lt =
    let s2 = created new start finish flags s in
    let e1 : (s2.vmas new).vm_start ≡ start = ground arith in
    let e2 : (s2.vmas new).vm_end ≡ finish = ground arith in
    let c : is_clear s2.vmas (s2.vmas new).vm_start (s2.vmas new).vm_end xs
        ≡ is_clear s.vmas start finish xs =
      ap (λ a. is_clear s2.vmas a (s2.vmas new).vm_end xs) e1
      ∙ (ap (λ a. is_clear s2.vmas start a xs) e2
          ∙ is_clear-fresh s.vmas new _ start finish xs (ground arith)) in
    elim (insert_vma_struct_lem s2 mm new xs
      (created-IsSpace s mm new xs start finish flags is (ground arith)) o ne
      (omega (arith, e1, e2))) [
        | inl (clear, (s', run, k)) ↦ inl (
          sym c ∙ clear,
          (
            s',
            run,
            record {
              now = k.now;
              space = k.space;
              members = k.members;
              made = k.made ∙ rw (==_refl new) refl;
              others = λ q other. k.others q other ∙ rw (==_ne q new other) refl;
            },
          ),
        )
        | inr (meets, stops) ↦ inr (sym c ∙ meets, stops)
      ]

-- In a sound space, which is not NULL, if the first address of the range, rounded to pages, is in
-- an area, or kmalloc gives no memory, mm_map keeps the space sound, with the same areas, and
-- changes no record of an area; it answers -E_NO_MEM if the range lies in the user's addresses and
-- its first address is in no area, and -E_INVAL otherwise.
pub mm_map_fails :
    (mm : Ptr) (xs : List Ptr) (addr len flags : ℕ) (new : Ptr) (s : Spaces)
    → mm ≢ null
    → IsSpace s mm xs
    → (area_of s.vmas (round_down addr) xs ≢ null) ⊎ (new ≡ null)
    → Ends (mm_map mm addr len flags new s) λ (r, _, s').
      IsSpace s' mm xs
      × (s'.vmas ≡ s.vmas)
      × (r ≡ (
          if user_access (round_down addr) (round_up ((addr + len) % 2 ^ 64))
            && (area_of s.vmas (round_down addr) xs == null)
          then e_no_mem
          else e_inval))
unfolding mm_map vma_create
mm_map_fails mm xs addr len flags new s ne is why =
    let start = round_down addr in
    let finish = round_up ((addr + len) % 2 ^ 64) in
    let x = area_of s.vmas start xs in
    let ((vma, s1), run, (e, is1, same)) = find_vma_lem s mm xs start is ne in
    let run' : find_vma mm start s ≡ some (x, s1) = rw (sym e) run in
    elim (Bool-cases (user_access start finish)) [
      | inr out ↦ rw out ((e_inval, null, s), refl, (is, refl, refl))
      | inl ok ↦ elim (Bool-cases (x == null)) [
        | inl nil ↦
            let no_memory : new ≡ null = ground (arith, why) in
            rw (ok, ==_ne mm null ne, run', nil, no_memory)
              ((e_no_mem, null, s1), refl, (is1, same, refl))
        | inr found ↦
            let c = contains-area_of s.vmas start xs (ground arith) in
            let overlap : ltb (s.vmas x).vm_start finish ≡ true = ground arith in
            rw (ok, ==_ne mm null ne, run', found, same, overlap)
              ((e_inval, null, s1), refl, (is1, same, refl))
      ]
    ]

-- In a sound space, which is not NULL, let the range, rounded to pages, lie in the user's
-- addresses, its first address be in no area, and kmalloc give memory that is not in use. If no
-- area meets the range, mm_map answers 0 and the new area, the space is sound, its areas are the
-- old ones, whose records are as they were, and the new one, which has that range, the flags and
-- the space; if an area does meet it, mm_map stops the kernel in place of answering -E_INVAL.
pub mm_map_lem :
    (mm : Ptr) (xs : List Ptr) (addr len flags : ℕ) (new : Ptr) (s : Spaces)
    → mm ≢ null
    → IsSpace s mm xs
    → new ≢ null
    → has new (mm ∷ xs) ≡ false
    → user_access (round_down addr) (round_up ((addr + len) % 2 ^ 64)) ≡ true
    → area_of s.vmas (round_down addr) xs ≡ null
    → ((is_clear s.vmas (round_down addr) (round_up ((addr + len) % 2 ^ 64)) xs ≡ true)
        × Ends (mm_map mm addr len flags new s) λ (r, made, s').
          (r ≡ pos 0)
          × (made ≡ new)
          × Mapped s.vmas mm xs new (round_down addr) (round_up ((addr + len) % 2 ^ 64)) flags s')
      ⊎ ((is_clear s.vmas (round_down addr) (round_up ((addr + len) % 2 ^ 64)) xs ≡ false)
          × (mm_map mm addr len flags new s ≡ none))
unfolding mm_map vma_create
mm_map_lem mm xs addr len flags new s ne is ne' o ok nil =
    let start = round_down addr in
    let finish = round_up ((addr + len) % 2 ^ 64) in
    let ((vma, s1), run, (e, is1, same)) = find_vma_lem s mm xs start is ne in
    let run' : find_vma mm start s ≡ some (null, s1) = run ∙ ap (λ v. some (v, s1)) (e ∙ nil) in
    rw (ok, ==_ne mm null ne, run', ==_ne new null ne', sym same)
      (elim (added s1 mm new xs start finish flags is1 ne' o (ground arith)) [
        | inl (clear, (s', inserts, k)) ↦
            inl (clear, rw (==_ne new null ne', inserts) ((pos 0, new, s'), refl, (refl, refl, k)))
        | inr (meets, stops) ↦ inr (meets, rw (==_ne new null ne', stops) refl)
      ])
