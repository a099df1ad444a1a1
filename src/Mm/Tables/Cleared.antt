-- ===== src/Mm/Tables/Cleared.antt =====
-- Clearing an entry of a page directory, and one of the directory that it leads to.
use os_lab.Base.{
  Ptr, ℕ, ◌<◌, ◌≡◌, ◌≢◌, ◌==◌, ==_ne, ==_refl, Bool, true, false, Bool-cases, inl, inr,
  if◌then◌else◌, refl, arith, ◌∙◌,
}
use os_lab.Mm.Tables.Defs.{is_valid, pte2page, set_word}
use os_lab.Mm.Tables.Tree.{leaf, mid_place, low_place, data_place, IsAt, IsTree, IsAt_ne}
use os_lab.Mm.Tables.Manager.{with_page}

-- The words once the two entries are cleared; the Boolean says whether the lower one is.
abbrev pub cleared : (Ptr → ℕ → ℕ) → (r i pd0 j : ℕ) → Bool → Ptr → ℕ → ℕ
cleared w r i pd0 j b =
    set_word (if b then set_word w (record { page = pd0; index = j }) 0 else w)
      (record { page = r; index = i }) 0

abbrev pub free_after : (Ptr → Bool) → (pt pd0 : Ptr) → Bool → Ptr → Bool
free_after free pt pd0 b = with_page (if b then with_page free pt else free) pd0

was_free :
    (free : Ptr → Bool) (pt pd0 q : Ptr) (b : Bool)
    → free_after free pt pd0 b q ≡ true
    → (q == pd0) ≡ false
    → (q == pt) ≡ false
    → free q ≡ true
was_free free pt pd0 q true f e e' = ground arith
was_free free pt pd0 q false f e e' = ground arith

module _ {w : Ptr → ℕ → ℕ} {npage : ℕ} {r : Ptr} {place : Ptr → ℕ} {free : Ptr → Bool}
    (t : IsTree w npage r place free) (i j : ℕ) (li : i < 511) (lj : j < 512)
    (v : is_valid (w r i) ≡ true) (v' : is_valid (w (pte2page (w r i)) j) ≡ true) (b : Bool) where
  abbrev pd0 : Ptr
  pd0 = pte2page (w r i)

  abbrev pt : Ptr
  pt = pte2page (w pd0 j)

  abbrev w' : Ptr → ℕ → ℕ
  w' = cleared w r i pd0 j b

  abbrev free' : Ptr → Bool
  free' = free_after free pt pd0 b

  other_words : (q c x : ℕ) → IsAt npage place free q c → c ≢ 0 → c ≢ mid_place i → w' q x ≡ w q x
  other_words q c x a ne ne' =
      let apart = ==_ne q r (IsAt_ne q r c 0 a t.root ne) in
      let apart' = ==_ne q pd0 (IsAt_ne q pd0 c (mid_place i) a (t.mid i li v) ne') in
      elim (Bool-cases b) [ inl e ↦ rw (e, apart, apart') refl | inr e ↦ rw (e, apart) refl ]

  root_words : (i' : ℕ) → w' r i' ≡ (if i' == i then 0 else w r i')
  root_words i' =
      let apart = ==_ne r pd0 (IsAt_ne r pd0 0 (mid_place i) t.root (t.mid i li v) (omega arith)) in
      elim (Bool-cases b) [ inl e ↦ rw (e, ==_refl r, apart) refl | inr e ↦ rw (e, ==_refl r) refl ]

  still_used :
      (q c : ℕ)
      → IsAt npage place free q c
      → c ≢ mid_place i
      → c ≢ low_place i j
      → IsAt npage place free' q c
  still_used q c a ne ne' = record {
    here = a.here;
    below = a.below;
    used =
        let apart = ==_ne q pd0 (IsAt_ne q pd0 c (mid_place i) a (t.mid i li v) ne) in
        let apart' = ==_ne q pt (IsAt_ne q pt c (low_place i j) a (t.low i j li lj v v') ne') in
        elim (Bool-cases b) [
          | inl e ↦ rw (e, apart, apart') (a.used)
          | inr e ↦ rw (e, apart) (a.used)
        ];
    ne_null = a.ne_null;
  }

  pub cleared-leaf :
      (i' j' k : ℕ)
      → i' < 511
      → j' < 512
      → leaf w' r i' j' k ≡ (if i' == i then 0 else leaf w r i' j' k)
  cleared-leaf i' j' k li' lj' = elim (Bool-cases (i' == i)) [
    | inl same ↦ rw (root_words i', same) refl
    | inr other ↦ elim (Bool-cases (is_valid (w r i'))) [
      | inr out ↦ rw (root_words i', other, out) refl
      | inl u ↦
          let a = t.mid i' li' u in
          let second =
            other_words (pte2page (w r i')) (mid_place i') j' a (omega arith) (ground arith) in
          elim (Bool-cases (is_valid (w (pte2page (w r i')) j'))) [
            | inr out ↦ rw (root_words i', other, u, second, out) refl
            | inl u' ↦
                let third =
                  other_words (pte2page (w (pte2page (w r i')) j')) (low_place i' j') k
                    (t.low i' j' li' lj' u u') (omega arith) (omega arith) in
                rw (root_words i', other, u, second, u', third) refl
          ]
    ]
  ]

  free_low : (q : Ptr) → free' q ≡ true → q < npage
  free_low q f = elim (Bool-cases (q == pd0)) [
    | inl e ↦ ground (arith, (t.mid i li v).below)
    | inr e ↦ elim (Bool-cases (q == pt)) [
      | inl e' ↦ ground (arith, (t.low i j li lj v v').below)
      | inr e' ↦ t.free_below q (was_free free pt pd0 q b f e e')
    ]
  ]

  pub cleared-IsTree : IsTree w' npage r place free'
  cleared-IsTree = record {
    root = still_used r 0 t.root (omega arith) (omega arith);
    mid = λ i' li' u. elim (Bool-cases (i' == i)) [
      | inl same ↦ absurd (ground (arith, rw (root_words i', same) at u))
      | inr other ↦
          let e : w' r i' ≡ w r i' = root_words i' ∙ rw other refl in
          rw e (
            still_used (pte2page (w r i')) (mid_place i') (t.mid i' li' (rw e at u)) (ground arith)
              (omega arith))
    ];
    low = λ i' j' li' lj' u u'. elim (Bool-cases (i' == i)) [
      | inl same ↦ absurd (ground (arith, rw (root_words i', same) at u))
      | inr other ↦
          let e : w' r i' ≡ w r i' = root_words i' ∙ rw other refl in
          let a = t.mid i' li' (rw e at u) in
          let e' =
            other_words (pte2page (w r i')) (mid_place i') j' a (omega arith) (ground arith) in
          rw (e, e')
            (still_used _ (low_place i' j') (t.low i' j' li' lj' (rw e at u) (rw (e, e') at u'))
              (omega arith) (ground arith))
    ];
    mapped = λ i' j' k li' lj' lk u. elim (Bool-cases (i' == i)) [
      | inl same ↦
          let nil : leaf w' r i' j' k ≡ 0 = cleared-leaf i' j' k li' lj' ∙ rw same refl in
          absurd (ground (arith, rw nil at u))
      | inr other ↦
          let old : leaf w' r i' j' k ≡ leaf w r i' j' k =
            cleared-leaf i' j' k li' lj' ∙ rw other refl in
          rw old (
            still_used (pte2page (leaf w r i' j' k)) (data_place i' j' k)
              (t.mapped i' j' k li' lj' lk (rw old at u)) (omega arith) (omega arith))
    ];
    free_below = free_low;
    few = t.few;
  }
