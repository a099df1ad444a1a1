-- ===== src/Mm/Tables/Remove.antt =====
-- `page_remove_pte` and `page_remove`: the entry is cleared, and the page is given back when no entry
-- counts on it any more.
use os_lab.Base.{
  Ptr, null, ℕ, ◌+◌, ◌-◌, ◌%◌, ◌^◌, ◌<◌, ◌≡◌, ◌≢◌, ◌==◌, ==_ne, ==_refl, Bool, true, false, ◌&&◌,
  ◌||◌, Bool-cases, inl, inr, if◌then◌else◌, refl, arith, ap, sym, ◌∙◌, Ends, some, ltb,
}
use os_lab.Mm.FirstFit.Defs.{FreeArea}
use os_lab.Mm.Tables.Defs.{
  PmmManager, Memory, Slot, word_at, set_word, is_valid, pte2page, pdx1, pdx0, ptx, page_ref,
  page_ref_dec, free_page, page_remove_pte, page_remove,
}
use os_lab.Mm.Tables.Tree.{IsAt_ne, leaf, data_place, no_place, IsAt}
use os_lab.Mm.Tables.Manager.{with_ref, with_page, Gives, Takes, AreApart, not_kernel, used-Room}
use os_lab.Mm.Tables.Enter.{IsMemory}
use os_lab.Mm.Tables.GetPte.{pte_of, IsSlot}
use os_lab.Mm.Tables.Read.{get_pte_reads}
use os_lab.Mm.Tables.Leaf.{hits, slot-IsAt, word_at-pte_of, set_leaf, set_leaf-IsTree}

-- A count, less one, as an int.
abbrev pub one_less : ℕ → ℕ
one_less n = (n + 2 ^ 32 - 1) % 2 ^ 32

-- Whether removing the entry for the address gives the page back.
abbrev pub gives_back : Memory → Ptr → ℕ → Ptr → Bool
gives_back m r la q =
    is_valid (pte_of m.words r la)
    && ((q == pte2page (pte_of m.words r la)) && (one_less (page_ref q m) == 0))

pub record Removed (Sound : FreeArea → (Ptr → Bool) → Type 0) (m : Memory) (r : Ptr)
    (place : Ptr → ℕ) (free : Ptr → Bool) (la : ℕ) (m' : Memory) : Type 0 where
  pub free' : Ptr → Bool
  pub memory : IsMemory Sound m' r place free'
  pub given_back : (q : Ptr) → free' q ≡ (gives_back m r la q || free q)
  pub leaves :
      (i j k : ℕ)
      → i < 511
      → j < 512
      → k < 512
      → leaf m'.words r i j k
        ≡ (if is_valid (pte_of m.words r la) && hits la i j k then 0 else leaf m.words r i j k)
  pub refs :
      (q : Ptr)
      → page_ref q m' ≡ (
          if is_valid (pte_of m.words r la) && (q == pte2page (pte_of m.words r la))
          then one_less (page_ref q m)
          else page_ref q m)
  pub same_npage : m'.npage ≡ m.npage

module _ (pmm : PmmManager) (Sound : FreeArea → (Ptr → Bool) → Type 0) (m : Memory) (r : Ptr)
    (place : Ptr → ℕ) (free : Ptr → Bool) (is : IsMemory Sound m r place free) (la : ℕ)
    (user : pdx1 la < 511) where
  -- An entry that is not valid stays as it is.
  pub nothing_there : is_valid (pte_of m.words r la) ≡ false → Removed Sound m r place free la m
  nothing_there v = record {
    free' = free;
    memory = is;
    given_back = λ q. rw v refl;
    leaves = λ i j k li lj lk. rw v refl;
    refs = λ q. rw v refl;
    same_npage = refl;
  }

  module _ (g : Gives pmm Sound) {kernel : Ptr → Bool} (k : Takes pmm Sound kernel)
      (ours : AreApart kernel place)
      (top : is_valid (pte_of m.words r la) ≡ true → free (m.npage - 1) ≡ true) (e : Slot)
      (s : IsSlot m.words r la e) where
    abbrev old : Ptr
    old = pte2page (word_at m.words e)

    old-IsAt :
        is_valid (word_at m.words e) ≡ true
        → IsAt m.npage place free old (data_place (pdx1 la) (pdx0 la) (ptx la))
    old-IsAt v =
        let same = word_at-pte_of is.tree la e s in
        rw same (
          is.tree.mapped (pdx1 la) (pdx0 la) (ptx la) user (omega arith) (omega arith)
            (rw same at v))

    -- The page is given back if nothing counts on it.
    give_back :
        is_valid (word_at m.words e) ≡ true
        → Ends
            (if page_ref old (page_ref_dec old m) == 0
              then free_page pmm old (page_ref_dec old m)
              else some (page_ref_dec old m))
            λ m2.
              Sound m2.area (if one_less (page_ref old m) == 0 then with_page free old else free)
              × (m2.words ≡ m.words)
              × (m2.npage ≡ m.npage)
              × ((q : Ptr)
                  → page_ref q m2 ≡ (if q == old then one_less (page_ref q m) else page_ref q m))
    unfolding free_page
    give_back v =
        let at = old-IsAt v in
        let n = one_less (page_ref old m) in
        let a1 = with_ref old n m.area in
        let sound : Sound a1 free = g.keeps_ref m.area free old n is.sound in
        let ref_is : (a1.pages old).ref ≡ n = ground arith in
        elim (Bool-cases (n == 0)) [
          | inr more ↦
              rw (ref_is, more) (page_ref_dec old m, refl, (sound, refl, refl, λ q. ground arith))
          | inl last ↦
              let (a2, run, (sound', refs)) =
                k.takes a1 free old sound at.used at.ne_null
                  (not_kernel old _ at kernel ours (omega arith))
                  (omega (arith, at.below, is.tree.few))
                  (used-Room old _ at (top (rw (word_at-pte_of is.tree la e s) at v))) in
              rw (ref_is, last, run)
                (
                  record m { area = a2 },
                  refl,
                  (sound', refl, refl, λ q. refs q ∙ ground (arith, last)),
                )
        ]

    abbrev free2 : Ptr → Bool
    free2 = if one_less (page_ref old m) == 0 then with_page free old else free

    free2_is : (q : Ptr) → free2 q ≡ (((q == old) && (one_less (page_ref q m) == 0)) || free q)
    free2_is q = elim (Bool-cases (one_less (page_ref old m) == 0)) [
      | inl last ↦ elim (Bool-cases (q == old)) [
        | inl same ↦ let eq : q ≡ old = ground arith in rw (eq, last, ==_refl old) refl
        | inr other ↦ rw (last, other) refl
      ]
      | inr more ↦ elim (Bool-cases (q == old)) [
        | inl same ↦ let eq : q ≡ old = ground arith in rw (eq, more, ==_refl old) refl
        | inr other ↦ rw (more, other) refl
      ]
    ]

    kept :
        is_valid (word_at m.words e) ≡ true
        → (q c : ℕ) → IsAt m.npage place free q c
        → c ≢ data_place (pdx1 la) (pdx0 la) (ptx la)
        → c < no_place
        → IsAt m.npage place free2 q c
    kept v q c a ne lt = record {
      here = a.here;
      below = a.below;
      used =
          let apart = IsAt_ne q old c (data_place (pdx1 la) (pdx0 la) (ptx la)) a (old-IsAt v) ne in
          free2_is q ∙ rw (==_ne q old apart) (a.used);
      ne_null = a.ne_null;
    }

    free2_below : is_valid (word_at m.words e) ≡ true → (q : Ptr) → free2 q ≡ true → q < m.npage
    free2_below v q f =
        let f' : (((q == old) && (one_less (page_ref q m) == 0)) || free q) ≡ true =
          sym (free2_is q) ∙ f in
        elim (Bool-cases (q == old)) [
          | inl same ↦ ground (arith, (old-IsAt v).below)
          | inr other ↦ is.tree.free_below q (rw other at f')
        ]

    removed :
        (m2 : Memory)
        → is_valid (word_at m.words e) ≡ true
        → Sound m2.area (if one_less (page_ref old m) == 0 then with_page free old else free)
        → m2.words ≡ m.words
        → m2.npage ≡ m.npage
        → ((q : Ptr) → page_ref q m2 ≡ (if q == old then one_less (page_ref q m) else page_ref q m))
        → Removed Sound m r place free la (record m2 { words = set_word m2.words e 0 })
    removed m2 v sound words np refs =
        let same = word_at-pte_of is.tree la e s in
        let at = old-IsAt v in
        record {
          free' = free2;
          memory = record {
            sound = sound;
            tree =
                rw (words, np)
                  (set_leaf-IsTree is.tree la e s 0 place free2 (kept v)
                    (λ z. absurd (ground arith)) (free2_below v));
          };
          given_back = λ q. rw (sym same, v) (free2_is q);
          leaves = λ i j k' li lj lk.
              rw (words, sym same, v) (set_leaf is.tree la e s 0 i j k' li lj lk);
          refs = λ q. rw (sym same, v) (refs q);
          same_npage = np;
        }

    pub page_remove_pte_runs :
        is_valid (word_at m.words e) ≡ true
        → Ends
            (page_remove_pte pmm e m)
            λ m'. Removed Sound m r place free la m' × (m'.words ≡ set_word m.words e 0)
    unfolding page_remove_pte
    page_remove_pte_runs v =
        let at = old-IsAt v in
        let lt : ltb old m.npage ≡ true = ground (arith, at.below) in
        let (m2, run, (sound, words, np, refs)) = give_back v in
        rw (v, lt, run)
          (
            record m2 { words = set_word m2.words e 0 },
            refl,
            (removed m2 v sound words np refs, ap (λ ws. set_word ws e 0) words),
          )

    pub page_remove_pte_lem :
        Ends (page_remove_pte pmm e m) λ m'. Removed Sound m r place free la m'
    unfolding page_remove_pte
    page_remove_pte_lem = elim (Bool-cases (is_valid (word_at m.words e))) [
      | inr out ↦ rw out (m, refl, nothing_there (rw (word_at-pte_of is.tree la e s) at out))
      | inl v ↦ let (m', run, (done, words)) = page_remove_pte_runs v in (m', run, done)
    ]

  -- Over a manager that hands out pages and takes them back as the contract says, from a memory
  -- whose page tables below the last gigabyte are a tree of pages in use, none of them the
  -- kernel's for good, for an address below the last gigabyte, if the last page of memory is free
  -- or the address is not mapped, page_remove ends, and the tables are a tree again. The address
  -- is mapped no longer, every other address below the last gigabyte is mapped as before, the page
  -- that it was mapped to counts one use less and is free if none is left, no other count changes,
  -- and no other page is freed.
  pub page_remove_lem :
      {kernel : Ptr → Bool}
      → Gives pmm Sound
      → Takes pmm Sound kernel
      → AreApart kernel place
      → (is_valid (pte_of m.words r la) ≡ true → free (m.npage - 1) ≡ true)
      → Ends (page_remove pmm r la m) λ m'. Removed Sound m r place free la m'
  unfolding page_remove
  page_remove_lem g k ours top =
      let ((e, m'), run, (same, found)) = get_pte_reads pmm Sound m r place free is la user in
      elim found [
        | inl (nil, out) ↦ rw (run, same, nil) (m, refl, nothing_there (rw (out (ptx la)) refl))
        | inr s ↦
            rw (run, same, ==_ne e.page null (slot-IsAt is.tree la e s).ne_null)
              (page_remove_pte_lem g k ours top e s)
      ]
