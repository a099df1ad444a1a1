-- ===== src/Mm/Tables/Leaf.antt =====
-- Writing one entry of a table of the last level.
use os_lab.Base.{
  Ptr, ℕ, ◌<◌, ◌≡◌, ◌≢◌, ◌==◌, ==_ne, ==_refl, Bool, true, false, ◌&&◌, Bool-cases, inl, inr,
  if◌then◌else◌, refl, arith, ap, sym, ◌∙◌,
}
use os_lab.Mm.Tables.Defs.{Slot, set_word, is_valid, pte2page, pdx1, pdx0, ptx}
use os_lab.Mm.Tables.Tree.{leaf, mid_place, low_place, data_place, no_place, IsAt, IsTree, IsAt_ne}
use os_lab.Mm.Tables.GetPte.{pte_of, IsSlot}

-- The indices of the address.
abbrev pub hits : (la i j k : ℕ) → Bool
hits la i j k = (i == pdx1 la) && ((j == pdx0 la) && (k == ptx la))

pub hits_indices :
    (la i j k : ℕ) → hits la i j k ≡ true → (i ≡ pdx1 la) × (j ≡ pdx0 la) × (k ≡ ptx la)
hits_indices la i j k h = (ground arith, ground arith, ground arith)

pub same_place :
    (a b c i j k : ℕ)
    → b < 512
    → c < 512
    → j < 512
    → k < 512
    → data_place i j k ≡ data_place a b c
    → (i ≡ a) × (j ≡ b) × (k ≡ c)
same_place a b c i j k lb lc lj lk e = (omega arith, omega arith, omega arith)

pub hits-data_place :
    (la i j k : ℕ)
    → j < 512
    → k < 512
    → hits la i j k ≡ false
    → data_place i j k ≢ data_place (pdx1 la) (pdx0 la) (ptx la)
hits-data_place la i j k lj lk h e =
    let (ei, ej, ek) =
      same_place (pdx1 la) (pdx0 la) (ptx la) i j k (omega arith) (omega arith) lj lk e in
    ground (arith, h, ei, ej, ek)

module _ {w : Ptr → ℕ → ℕ} {npage : ℕ} {r : Ptr} {place : Ptr → ℕ} {free : Ptr → Bool}
    (t : IsTree w npage r place free) (la : ℕ) (e : Slot) (s : IsSlot w r la e) where
  pub slot-IsAt : IsAt npage place free e.page (low_place (pdx1 la) (pdx0 la))
  slot-IsAt =
      rw (s.page_is) (t.low (pdx1 la) (pdx0 la) s.user (omega arith) s.mid_valid s.low_valid)

  pub word_at-pte_of : w e.page e.index ≡ pte_of w r la
  word_at-pte_of = rw (s.mid_valid, s.low_valid, s.page_is, s.index_is) refl

  module _ (v : ℕ) where
    other_word :
        (q c x : ℕ)
        → IsAt npage place free q c
        → c ≢ low_place (pdx1 la) (pdx0 la)
        → set_word w e v q x ≡ w q x
    other_word q c x a ne =
        rw (==_ne q e.page (IsAt_ne q e.page c (low_place (pdx1 la) (pdx0 la)) a slot-IsAt ne)) refl

    root_word : (i : ℕ) → set_word w e v r i ≡ w r i
    root_word i = other_word r 0 i t.root (omega arith)

    mid_word :
        (i j : ℕ)
        → i < 511
        → is_valid (w r i) ≡ true
        → set_word w e v (pte2page (w r i)) j ≡ w (pte2page (w r i)) j
    mid_word i j li valid =
        other_word (pte2page (w r i)) (mid_place i) j (t.mid i li valid) (omega arith)

    low_word :
        (i j k : ℕ)
        → i < 511
        → j < 512
        → is_valid (w r i) ≡ true
        → is_valid (w (pte2page (w r i)) j) ≡ true
        → set_word w e v (pte2page (w (pte2page (w r i)) j)) k
          ≡ (if hits la i j k then v else w (pte2page (w (pte2page (w r i)) j)) k)
    low_word i j k li lj valid valid' = elim (Bool-cases ((i == pdx1 la) && (j == pdx0 la))) [
      | inl same ↦
          let ei : i ≡ pdx1 la = ground arith in
          let ej : j ≡ pdx0 la = ground arith in
          let page : e.page ≡ pte2page (w (pte2page (w r i)) j) = rw (ei, ej) (s.page_is) in
          let n = ==_refl (pte2page (w (pte2page (w r i)) j)) in
          let h : hits la i j k ≡ (k == ptx la) = ground arith in rw (page, n, s.index_is, h) refl
      | inr other ↦
          let h : hits la i j k ≡ false = ground arith in
          rw h (
            other_word (pte2page (w (pte2page (w r i)) j)) (low_place i j) k
              (t.low i j li lj valid valid') (ground arith))
    ]

    -- The entry reads v, every other one is as it was.
    pub set_leaf :
        (i j k : ℕ)
        → i < 511
        → j < 512
        → k < 512
        → leaf (set_word w e v) r i j k ≡ (if hits la i j k then v else leaf w r i j k)
    set_leaf i j k li lj lk = elim (Bool-cases (is_valid (w r i))) [
      | inr out ↦
          let ne : i ≢ pdx1 la = λ q. absurd (ground (arith, s.mid_valid, ap (w r) q)) in
          let h : hits la i j k ≡ false = ground arith in rw (root_word i, out, h) refl
      | inl valid ↦
          let second = mid_word i j li valid in
          elim (Bool-cases (is_valid (w (pte2page (w r i)) j))) [
            | inr out ↦
                let ne : i ≡ pdx1 la → j ≡ pdx0 la → false ≡ true =
                  λ ei ej. sym (rw (ei, ej) at out) ∙ s.low_valid in
                let h : hits la i j k ≡ false = elim (Bool-cases (hits la i j k)) [
                  | inl hit ↦ absurd (ground (arith, ne (ground arith) (ground arith)))
                  | inr miss ↦ miss
                ] in
                rw (root_word i, valid, second, out, h) refl
            | inl valid' ↦
                rw (root_word i, valid, second, valid') (low_word i j k li lj valid valid')
          ]
    ]

    -- The tables stay a tree if the pages other than the one that the entry led to keep their places,
    -- and the page that it leads to now has the entry's.
    pub set_leaf-IsTree :
        (place' : Ptr → ℕ) (free' : Ptr → Bool)
        → ((q c : ℕ)
            → IsAt npage place free q c
            → c ≢ data_place (pdx1 la) (pdx0 la) (ptx la)
            → c < no_place
            → IsAt npage place' free' q c)
        → (is_valid v ≡ true
            → IsAt npage place' free' (pte2page v) (data_place (pdx1 la) (pdx0 la) (ptx la)))
        → ((q : Ptr) → free' q ≡ true → q < npage)
        → IsTree (set_word w e v) npage r place' free'
    set_leaf-IsTree place' free' keeps now below = record {
      root = keeps r 0 t.root (omega arith) (omega arith);
      mid = λ i li valid.
          let u : is_valid (w r i) ≡ true = rw (root_word i) at valid in
          rw (root_word i)
            (keeps (pte2page (w r i)) (mid_place i) (t.mid i li u) (omega arith) (omega arith));
      low = λ i j li lj valid valid'.
          let u : is_valid (w r i) ≡ true = rw (root_word i) at valid in
          let second = mid_word i j li u in
          let u' : is_valid (w (pte2page (w r i)) j) ≡ true = rw (root_word i, second) at valid' in
          rw (root_word i, second)
            (keeps (pte2page (w (pte2page (w r i)) j)) (low_place i j) (t.low i j li lj u u')
              (omega arith) (omega arith));
      mapped = λ i j k li lj lk valid. elim (Bool-cases (hits la i j k)) [
        | inl hit ↦
            let (ei, ej, ek) = hits_indices la i j k hit in
            let now_v : leaf (set_word w e v) r i j k ≡ v = set_leaf i j k li lj lk ∙ rw hit refl in
            rw (now_v, ei, ej, ek) (now (rw now_v at valid))
        | inr miss ↦
            let old : leaf (set_word w e v) r i j k ≡ leaf w r i j k =
              set_leaf i j k li lj lk ∙ rw miss refl in
            rw old (
              keeps (pte2page (leaf w r i j k)) (data_place i j k)
                (t.mapped i j k li lj lk (rw old at valid)) (hits-data_place la i j k lj lk miss)
                (omega arith))
      ];
      free_below = below;
      few = t.few;
    }

    -- The way to the entry is as it was.
    pub set_leaf-IsSlot : IsSlot (set_word w e v) r la e
    set_leaf-IsSlot =
        let second = mid_word (pdx1 la) (pdx0 la) s.user s.mid_valid in
        record {
          mid_valid = rw (root_word (pdx1 la)) (s.mid_valid);
          low_valid = rw (root_word (pdx1 la), second) (s.low_valid);
          page_is = rw (root_word (pdx1 la), second) (s.page_is);
          index_is = s.index_is;
          user = s.user;
        }
