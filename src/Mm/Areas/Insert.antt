-- ===== src/Mm/Areas/Insert.antt =====
-- `insert_vma_struct` keeps the areas sorted, and stops the kernel exactly if the new one meets
-- another.
use os_lab.Base.{
  subst, ◌⊎◌, ◌||◌, Ends, null, ◌≢◌, ap, Option, [], inr, inl, Bool-cases, ==_ne, has-append, leb,
  length-append, has-last_or, arith, ◌∷◌, ltb, ==_refl, none, ◌==◌, ◌&&◌, head_or, last_or, refl,
  if◌then◌else◌, some, false, ◌≤◌, ◌<◌, ◌>>◌, true, ◌≡◌, ◌+◌, ◌++◌, assert, has, List, Bool, update,
  ℕ, Ptr,
}
use os_lab.Libs.Links.{list_next, list_add, list_add_after}
use os_lab.Libs.Links.Edit.{list_add-Ring_at, next_of_last}
use os_lab.Mm.Areas.Defs.{Vma, Spaces, check_vma_overlap, insert_vma_struct}
use os_lab.Mm.Areas.Sorted.{Areas, IsSpace, is_clear, Areas-lower}
use os_lab.Mm.Areas.Cut.{
  cut, find_prev_runs, end_of_areas, end_of_last, Areas-left, Areas-right, clear_below, clear_above,
  is_clear-append,
}

assert_between : (b : Bool) → (assert true >> (assert b >> assert true)) ≡ assert b
assert_between true = refl
assert_between false = refl

-- Three checks in a row.
checks {ℓ} :
    {A : Type ℓ} (o p q : Option (Unit {0})) (a b : Bool) (x : A)
    → o ≡ some tt
    → p ≡ assert a
    → q ≡ assert b
    → (o >> (p >> (q >> some x))) ≡ (if a && b then some x else none)
checks o p q true true x e f g = rw (e, f, g)
checks o p q true false x e f g = rw (e, f, g)
checks o p q false b x e f g = rw (e, f)

check_prev :
    (f : Ptr → Vma) (mm : Ptr) (xs : List Ptr) (v : Vma)
    → Areas f 0 xs
    → has mm xs ≡ false
    → v.vm_start < v.vm_end
    → ((q : Ptr) → has q xs ≡ true → (f q).vm_start ≤ v.vm_start)
    → (if last_or mm xs == mm then some tt else check_vma_overlap (f (last_or mm xs)) v)
      ≡ assert (is_clear f v.vm_start v.vm_end xs)
check_prev f mm [] v a o lt h = rw (==_refl mm)
check_prev f mm (x ∷ xs) v a o lt h =
    let q = last_or x xs in
    let i : has q (x ∷ xs) ≡ true = has-last_or x xs in
    let t1 : ltb (f q).vm_start (f q).vm_end ≡ true =
      ground (arith, Areas-lower f 0 (x ∷ xs) q a i) in
    let t2 : ltb v.vm_start v.vm_end ≡ true = ground arith in
    let e : end_of_areas f (f x).vm_end xs ≡ (f q).vm_end = end_of_last f 0 mm x xs in
    rw
      (
        ==_ne q mm (ground arith),
        t1,
        t2,
        clear_below f 0 v.vm_start v.vm_end (x ∷ xs) a h lt (omega arith),
        e,
      )
      (assert_between (leb (f q).vm_end v.vm_start))

check_next :
    (f : Ptr → Vma) (lo : ℕ) (mm : Ptr) (xs : List Ptr) (v : Vma)
    → Areas f lo xs
    → has mm xs ≡ false
    → v.vm_start < v.vm_end
    → ((q : Ptr) → has q xs ≡ true → v.vm_start < (f q).vm_start)
    → (if head_or mm xs == mm then some tt else check_vma_overlap v (f (head_or mm xs)))
      ≡ assert (is_clear f v.vm_start v.vm_end xs)
check_next f lo mm [] v a o lt h = rw (==_refl mm)
check_next f lo mm (x ∷ xs) v a o lt h =
    let t1 : ltb v.vm_start v.vm_end ≡ true = ground arith in
    let t2 : ltb (f x).vm_start (f x).vm_end ≡ true = ground (arith, a.1) in
    let c : is_clear f v.vm_start v.vm_end (x ∷ xs) ≡ leb v.vm_end (f x).vm_start =
      elim (Bool-cases (leb v.vm_end (f x).vm_start)) [
        | inl e ↦ ground (
          arith,
          clear_above f (f x).vm_end v.vm_start v.vm_end xs a.2
              (λ q i. ground (arith, a.1, Areas-lower f (f x).vm_end xs q a.2 i)),
        )
        | inr e ↦ ground (arith, a.1, h x)
      ] in
    rw (==_ne x mm (ground arith), t1, t2, c) (assert_between (leb v.vm_end (f x).vm_start))

-- The space with the new area behind `prev`.
abbrev inserted : (mm prev vma : Ptr) → Spaces → Spaces
inserted mm prev vma s = record {
  vmas = update s.vmas vma (record (s.vmas vma) { vm_mm = mm });
  mms = update s.mms mm (record (s.mms mm) { map_count = (s.mms mm).map_count + 1 });
  mmap_links = list_add_after prev vma s.mmap_links;
}

insert_runs :
    (s : Spaces) (mm vma : Ptr) (front back : List Ptr)
    → IsSpace s mm (front ++ back)
    → (s.vmas vma).vm_start < (s.vmas vma).vm_end
    → ((q : Ptr) → has q front ≡ true → (s.vmas q).vm_start ≤ (s.vmas vma).vm_start)
    → ((q : Ptr) → has q back ≡ true → (s.vmas vma).vm_start < (s.vmas q).vm_start)
    → insert_vma_struct mm vma s ≡ (
        if is_clear s.vmas (s.vmas vma).vm_start (s.vmas vma).vm_end (front ++ back)
        then some (inserted mm (last_or mm front) vma s)
        else none)
unfolding insert_vma_struct list_next
insert_runs s mm vma front back is lt lo hi =
    let v = s.vmas vma in
    let t : ltb v.vm_start v.vm_end ≡ true = ground arith in
    let o = is.ring.distinct.0 in
    rw
      (
        find_prev_runs ((s.mms mm).map_count + 1) mm mm front back v.vm_start s is.ring.chain o lo
            hi (omega (arith, is.counted, length-append front back)),
        next_of_last s.mmap_links mm front back mm is.ring.chain,
        is_clear-append s.vmas v.vm_start v.vm_end front back,
      )
      (checks _ _ _ (is_clear s.vmas v.vm_start v.vm_end front)
        (is_clear s.vmas v.vm_start v.vm_end back) _ (ap assert t)
        (check_prev s.vmas mm front v (Areas-left s.vmas 0 front back is.areas)
          (ground (arith, has-append mm front back)) lt lo)
        (check_next s.vmas (end_of_areas s.vmas 0 front) mm back v
          (Areas-right s.vmas 0 front back is.areas) (ground (arith, has-append mm front back)) lt
          hi))

Areas-same :
    (f g : Ptr → Vma) (lo : ℕ) (xs : List Ptr)
    → ((q : Ptr) → (g q).vm_start ≡ (f q).vm_start)
    → ((q : Ptr) → (g q).vm_end ≡ (f q).vm_end)
    → Areas f lo xs
    → Areas g lo xs
Areas-same f g lo [] hs he a = tt
Areas-same f g lo (x ∷ xs) hs he a =
    let b = Areas-same f g (f x).vm_end xs hs he a.2 in
    (rw (hs x) a.0, rw (hs x, he x) a.1, rw (he x) b)

Areas-insert :
    (f : Ptr → Vma) (lo : ℕ) (front : List Ptr) (vma : Ptr) (back : List Ptr)
    → Areas f lo (front ++ back)
    → lo ≤ (f vma).vm_start
    → (f vma).vm_start < (f vma).vm_end
    → ((q : Ptr) → has q front ≡ true → (f q).vm_start ≤ (f vma).vm_start)
    → ((q : Ptr) → has q back ≡ true → (f vma).vm_start < (f q).vm_start)
    → is_clear f (f vma).vm_start (f vma).vm_end (front ++ back) ≡ true
    → Areas f lo (front ++ vma ∷ back)
Areas-insert f lo [] vma [] a le lt h k c = (le, lt, tt)
Areas-insert f lo [] vma (y ∷ ys) a le lt h k c = (le, lt, (ground (arith, k y, a.1), a.1, a.2))
Areas-insert f lo (x ∷ xs) vma back a le lt h k c = (
  a.0,
  a.1,
  Areas-insert f (f x).vm_end xs vma back a.2 (ground (arith, h x, a.1)) lt
      (λ q i. h q (ground arith)) k (ground arith),
)

inserted-IsSpace :
    (s : Spaces) (mm vma : Ptr) (front back : List Ptr)
    → IsSpace s mm (front ++ back)
    → has vma (mm ∷ front ++ back) ≡ false
    → vma ≢ null
    → (s.vmas vma).vm_start < (s.vmas vma).vm_end
    → ((q : Ptr) → has q front ≡ true → (s.vmas q).vm_start ≤ (s.vmas vma).vm_start)
    → ((q : Ptr) → has q back ≡ true → (s.vmas vma).vm_start < (s.vmas q).vm_start)
    → is_clear s.vmas (s.vmas vma).vm_start (s.vmas vma).vm_end (front ++ back) ≡ true
    → IsSpace (inserted mm (last_or mm front) vma s) mm (front ++ vma ∷ back)
unfolding list_add_after list_add
inserted-IsSpace s mm vma front back is o ne lt lo hi c = record {
  ring = list_add-Ring_at front vma back is.ring o;
  areas =
      Areas-same s.vmas (inserted mm (last_or mm front) vma s).vmas 0 (front ++ vma ∷ back)
        (λ q. ground arith) (λ q. ground arith)
        (Areas-insert s.vmas 0 front vma back is.areas (omega arith) lt lo hi c);
  counted = ground (arith, is.counted, length-append front back, length-append front (vma ∷ back));
  no_null =
      ground (arith, is.no_null, has-append null front back, has-append null front (vma ∷ back));
  cached = elim is.cached [
    | inl e ↦ inl (ground arith)
    | inr i ↦
        let c0 = (s.mms mm).mmap_cache in
        inr (ground (arith, has-append c0 front back, has-append c0 front (vma ∷ back)))
  ];
}

-- The space with one area more, which begins and ends where it did.
pub record Inserted (s : Spaces) (mm vma : Ptr) (xs : List Ptr) (s' : Spaces) : Type 0 where
  pub now : List Ptr
  pub space : IsSpace s' mm now
  pub members : (q : Ptr) → has q now ≡ ((q == vma) || has q xs)
  pub starts : (q : Ptr) → (s'.vmas q).vm_start ≡ (s.vmas q).vm_start
  pub ends : (q : Ptr) → (s'.vmas q).vm_end ≡ (s.vmas q).vm_end
  pub others : (q : Ptr) → q ≢ vma → s'.vmas q ≡ s.vmas q
  pub made : s'.vmas vma ≡ record (s.vmas vma) { vm_mm = mm }

-- A new area of at least one address is put among the areas of a sound space: if no area of the
-- space meets it, the space stays sound, its areas are the old ones and the new one, and each
-- begins and ends where it did; if one does, the kernel stops.
pub insert_vma_struct_lem :
    (s : Spaces) (mm vma : Ptr) (xs : List Ptr)
    → IsSpace s mm xs
    → has vma (mm ∷ xs) ≡ false
    → vma ≢ null
    → (s.vmas vma).vm_start < (s.vmas vma).vm_end
    → ((is_clear s.vmas (s.vmas vma).vm_start (s.vmas vma).vm_end xs ≡ true)
        × Ends (insert_vma_struct mm vma s) λ s'. Inserted s mm vma xs s')
      ⊎ ((is_clear s.vmas (s.vmas vma).vm_start (s.vmas vma).vm_end xs ≡ false)
          × (insert_vma_struct mm vma s ≡ none))
insert_vma_struct_lem s mm vma xs is o ne lt =
    let c = cut s.vmas 0 (s.vmas vma).vm_start xs is.areas in
    let front = c.front in
    let back = c.back in
    let is' : IsSpace s mm (front ++ back) = subst (λ zs. IsSpace s mm zs) c.whole is in
    let o' : has vma (mm ∷ front ++ back) ≡ false =
      subst (λ zs. has vma (mm ∷ zs) ≡ false) c.whole o in
    let run = insert_runs s mm vma front back is' lt c.below c.above in
    elim (Bool-cases (is_clear s.vmas (s.vmas vma).vm_start (s.vmas vma).vm_end (front ++ back))) [
      | inl e ↦ inl (
        rw (c.whole) e,
        (
          inserted mm (last_or mm front) vma s,
          (rw e at run),
          record {
            now = front ++ vma ∷ back;
            space = inserted-IsSpace s mm vma front back is' o' ne lt c.below c.above e;
            members = λ q.
                rw (c.whole)
                  (ground (arith, has-append q front back, has-append q front (vma ∷ back)));
            starts = λ q. ground arith;
            ends = λ q. ground arith;
            others = λ q other. rw (==_ne q vma other) refl;
            made = rw (==_refl vma) refl;
          },
        ),
      )
      | inr e ↦ inr (rw (c.whole) e, rw e at run)
    ]
