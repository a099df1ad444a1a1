-- ===== src/Mm/Tables/Grow.antt =====
-- A new table, with no entries, in place of a missing one: the tree stays a tree, and no address is
-- translated differently.
use os_lab.Base.{
  Ptr, null, ℕ, ◌^◌, ◌<◌, ◌≡◌, ◌≢◌, ◌==◌, Bool, true, false, ◌&&◌, Bool-cases, inl, inr, update,
  refl, arith, ap,
}
use os_lab.Mm.Tables.Defs.{Slot, set_word, clear_page, is_valid, pte2page, pte_create}
use os_lab.Mm.Tables.Tree.{
  leaf, mid_place, low_place, data_place, IsAt, IsTree, without, pte2page-pte_create,
  is_valid-pte_create, IsAt-without, IsAt-new, IsAt_ne, fresh_ne,
}

-- The words once the page `p` is a new table that the entry `e` leads to.
abbrev pub grown : (Ptr → ℕ → ℕ) → Slot → Ptr → Ptr → ℕ → ℕ
grown w e p = set_word (clear_page p w) e (pte_create p 17)

module _ (w : Ptr → ℕ → ℕ) (e : Slot) (p : Ptr) (apart : e.page ≢ p) where
  grown_new : (i : ℕ) → grown w e p p i ≡ 0
  grown_new i = ground arith

  pub grown_entry : grown w e p e.page e.index ≡ pte_create p 17
  grown_entry = ground arith

  grown_page : (q i : ℕ) → q ≢ p → q ≢ e.page → grown w e p q i ≡ w q i
  grown_page q i ne ne' = ground arith

  grown_index : (i : ℕ) → i ≢ e.index → grown w e p e.page i ≡ w e.page i
  grown_index i ne = ground arith

-- A tree that has grown by one table: the pages and the entries that were in use are as they were.
pub record Grows (w w' : Ptr → ℕ → ℕ) (npage : ℕ) (r : Ptr) (place : Ptr → ℕ) (free : Ptr → Bool)
    : Type 0 where
  pub tree : IsTree w' npage r place free
  pub leaves : (i j k : ℕ) → i < 511 → j < 512 → k < 512 → leaf w' r i j k ≡ leaf w r i j k
  pub roots : (i : ℕ) → is_valid (w r i) ≡ true → w' r i ≡ w r i

module _ (w : Ptr → ℕ → ℕ) (npage : ℕ) (r : Ptr) (place : Ptr → ℕ) (free : Ptr → Bool)
    (t : IsTree w npage r place free) (p : Ptr) (f : free p ≡ true) (ne : p ≢ null) (i : ℕ)
    (small : i < 511) where
  p_few : p < 2 ^ 44
  p_few = omega (arith, t.free_below p f, t.few)

  r_ne : r ≢ p
  r_ne = fresh_ne p r 0 f t.root

  -- At the root.
  module _ (missing : is_valid (w r i) ≡ false) where
    abbrev mid_words : Ptr → ℕ → ℕ
    mid_words = grown w (record { page = r; index = i }) p

    mid_entry : mid_words r i ≡ pte_create p 17
    mid_entry = grown_entry w (record { page = r; index = i }) p r_ne

    mid_other : (i' : ℕ) → i' ≢ i → mid_words r i' ≡ w r i'
    mid_other i' n = grown_index w (record { page = r; index = i }) p r_ne i' n

    mid_new : (j : ℕ) → mid_words p j ≡ 0
    mid_new j = grown_new w (record { page = r; index = i }) p r_ne j

    mid_page : (q c k : ℕ) → IsAt npage place free q c → c ≢ 0 → mid_words q k ≡ w q k
    mid_page q c k a n =
        grown_page w (record { page = r; index = i }) p r_ne q k (fresh_ne p q c f a)
          (IsAt_ne q r c 0 a t.root n)

    mid_leaf :
        (i' j k : ℕ) → i' < 511 → j < 512 → k < 512 → leaf mid_words r i' j k ≡ leaf w r i' j k
    mid_leaf i' j k li lj lk = elim (Bool-cases (i' == i)) [
      | inl same ↦
          let eq : i' ≡ i = ground arith in
          rw
            (
              eq,
              mid_entry,
              is_valid-pte_create p 17 p_few (omega arith),
              missing,
              pte2page-pte_create p 17 p_few (omega arith),
              mid_new j,
            )
            refl
      | inr other ↦
          let root : mid_words r i' ≡ w r i' = mid_other i' (ground arith) in
          elim (Bool-cases (is_valid (w r i'))) [
            | inr out ↦ rw (root, out) refl
            | inl in_use ↦
                let a = t.mid i' li in_use in
                let q = pte2page (w r i') in
                let second : mid_words q j ≡ w q j = mid_page q (mid_place i') j a (omega arith) in
                elim (Bool-cases (is_valid (w q j))) [
                  | inr out ↦ rw (root, in_use, second, out) refl
                  | inl in_use' ↦
                      let b = t.low i' j li lj in_use in_use' in
                      rw (root, in_use, second, in_use')
                        (mid_page (pte2page (w q j)) (low_place i' j) k b (omega arith))
                ]
          ]
    ]

    mid-IsTree : IsTree mid_words npage r (update place p (mid_place i)) (without free p)
    mid-IsTree = record {
      root = IsAt-without p r 0 (mid_place i) f t.root;
      mid = λ i' li v. elim (Bool-cases (i' == i)) [
        | inl same ↦
            let eq : i' ≡ i = ground arith in
            rw (eq, mid_entry, pte2page-pte_create p 17 p_few (omega arith))
              (IsAt-new npage place free p (mid_place i) ne (t.free_below p f))
        | inr other ↦
            let root : mid_words r i' ≡ w r i' = mid_other i' (ground arith) in
            rw root (
              IsAt-without p (pte2page (w r i')) (mid_place i') (mid_place i) f
                (t.mid i' li (rw root at v)))
      ];
      low = λ i' j li lj v v'. elim (Bool-cases (i' == i)) [
        | inl same ↦
            let eq : i' ≡ i = ground arith in
            let u : is_valid 0 ≡ true =
              rw (eq, mid_entry, pte2page-pte_create p 17 p_few (omega arith), mid_new j) at v' in
            absurd (ground arith)
        | inr other ↦
            let root : mid_words r i' ≡ w r i' = mid_other i' (ground arith) in
            let u : is_valid (w r i') ≡ true = rw root at v in
            let a = t.mid i' li u in
            let second = mid_page (pte2page (w r i')) (mid_place i') j a (omega arith) in
            rw (root, second)
              (IsAt-without p _ (low_place i' j) (mid_place i) f
                (t.low i' j li lj u (rw (root, second) at v')))
      ];
      mapped = λ i' j k li lj lk v. rw (mid_leaf i' j k li lj lk) (
          IsAt-without p _ (data_place i' j k) (mid_place i) f
            (t.mapped i' j k li lj lk (rw (mid_leaf i' j k li lj lk) at v)));
      free_below = λ q g. t.free_below q (ground arith);
      few = t.few;
    }

    pub mid-Grows : Grows w mid_words npage r (update place p (mid_place i)) (without free p)
    mid-Grows = record {
      tree = mid-IsTree;
      leaves = mid_leaf;
      roots = λ i' v. mid_other i' (λ e. absurd (ground (arith, missing, ap (w r) e)));
    }

  -- Below the root.
  module _ (in_use : is_valid (w r i) ≡ true) (j : ℕ) (small' : j < 512)
      (missing : is_valid (w (pte2page (w r i)) j) ≡ false) where
    abbrev upper : Ptr
    upper = pte2page (w r i)

    upper-IsAt : IsAt npage place free upper (mid_place i)
    upper-IsAt = t.mid i small in_use

    upper_ne : upper ≢ p
    upper_ne = fresh_ne p upper (mid_place i) f upper-IsAt

    abbrev low_words : Ptr → ℕ → ℕ
    low_words = grown w (record { page = upper; index = j }) p

    low_entry : low_words upper j ≡ pte_create p 17
    low_entry = grown_entry w (record { page = upper; index = j }) p upper_ne

    low_other : (j' : ℕ) → j' ≢ j → low_words upper j' ≡ w upper j'
    low_other j' n = grown_index w (record { page = upper; index = j }) p upper_ne j' n

    low_new : (k : ℕ) → low_words p k ≡ 0
    low_new k = grown_new w (record { page = upper; index = j }) p upper_ne k

    low_page : (q c k : ℕ) → IsAt npage place free q c → c ≢ mid_place i → low_words q k ≡ w q k
    low_page q c k a n =
        grown_page w (record { page = upper; index = j }) p upper_ne q k (fresh_ne p q c f a)
          (IsAt_ne q upper c (mid_place i) a upper-IsAt n)

    low_root : (i' : ℕ) → low_words r i' ≡ w r i'
    low_root i' = low_page r 0 i' t.root (omega arith)

    -- Another entry of a table below the root.
    low_second :
        (i' j' : ℕ)
        → i' < 511
        → is_valid (w r i') ≡ true
        → ((i' == i) && (j' == j)) ≡ false
        → low_words (pte2page (w r i')) j' ≡ w (pte2page (w r i')) j'
    low_second i' j' li valid other = elim (Bool-cases (i' == i)) [
      | inl same ↦ let ei : i' ≡ i = ground arith in rw ei (low_other j' (ground arith))
      | inr differ ↦
          low_page (pte2page (w r i')) (mid_place i') j' (t.mid i' li valid) (ground arith)
    ]

    low_leaf :
        (i' j' k : ℕ) → i' < 511 → j' < 512 → k < 512 → leaf low_words r i' j' k ≡ leaf w r i' j' k
    low_leaf i' j' k li lj lk = elim (Bool-cases (is_valid (w r i'))) [
      | inr out ↦ rw (low_root i', out) refl
      | inl valid ↦
          let a = t.mid i' li valid in
          let q = pte2page (w r i') in
          elim (Bool-cases ((i' == i) && (j' == j))) [
            | inl same ↦
                let ei : i' ≡ i = ground arith in
                let ej : j' ≡ j = ground arith in
                rw
                  (
                    ei,
                    ej,
                    low_root i,
                    in_use,
                    low_entry,
                    missing,
                    is_valid-pte_create p 17 p_few (omega arith),
                    pte2page-pte_create p 17 p_few (omega arith),
                  )
                  (low_new k)
            | inr other ↦
                let second : low_words q j' ≡ w q j' = low_second i' j' li valid other in
                elim (Bool-cases (is_valid (w q j'))) [
                  | inr out ↦ rw (low_root i', valid, second, out) refl
                  | inl valid' ↦
                      let b = t.low i' j' li lj valid valid' in
                      rw (low_root i', valid, second, valid')
                        (low_page (pte2page (w q j')) (low_place i' j') k b (omega arith))
                ]
          ]
    ]

    low_low :
        (i' j' : ℕ)
        → i' < 511
        → j' < 512
        → is_valid (w r i') ≡ true
        → is_valid (low_words (pte2page (w r i')) j') ≡ true
        → IsAt npage
            (update place p (low_place i j))
            (without free p)
            (pte2page (low_words (pte2page (w r i')) j'))
            (low_place i' j')
    low_low i' j' li lj valid v = elim (Bool-cases ((i' == i) && (j' == j))) [
      | inl same ↦
          let ei : i' ≡ i = ground arith in
          let ej : j' ≡ j = ground arith in
          rw (ei, ej, low_entry, pte2page-pte_create p 17 p_few (omega arith))
            (IsAt-new npage place free p (low_place i j) ne (t.free_below p f))
      | inr other ↦
          let second = low_second i' j' li valid other in
          rw second (
            IsAt-without p _ (low_place i' j') (low_place i j) f
              (t.low i' j' li lj valid (rw second at v)))
    ]

    low-IsTree : IsTree low_words npage r (update place p (low_place i j)) (without free p)
    low-IsTree = record {
      root = IsAt-without p r 0 (low_place i j) f t.root;
      mid = λ i' li v.
          rw (low_root i') (
            IsAt-without p _ (mid_place i') (low_place i j) f
              (t.mid i' li (rw (low_root i') at v)));
      low = λ i' j' li lj v v'.
          let valid : is_valid (w r i') ≡ true = rw (low_root i') at v in
          rw (low_root i') (low_low i' j' li lj valid (rw (low_root i') at v'));
      mapped = λ i' j' k li lj lk v. rw (low_leaf i' j' k li lj lk) (
          IsAt-without p _ (data_place i' j' k) (low_place i j) f
            (t.mapped i' j' k li lj lk (rw (low_leaf i' j' k li lj lk) at v)));
      free_below = λ q g. t.free_below q (ground arith);
      few = t.few;
    }

    pub low-Grows : Grows w low_words npage r (update place p (low_place i j)) (without free p)
    low-Grows = record { tree = low-IsTree; leaves = low_leaf; roots = λ i' v. low_root i' }
