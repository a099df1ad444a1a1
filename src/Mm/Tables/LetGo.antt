-- ===== src/Mm/Tables/LetGo.antt =====
-- What `page_insert` does about the page that the address was mapped to: `let_go`.
use os_lab.Base.{
  Ptr, ℕ, ◌+◌, ◌-◌, ◌%◌, ◌^◌, ◌<◌, ◌≡◌, ◌==◌, ==_refl, Bool, true, false, not, ◌&&◌, ◌||◌,
  Bool-cases, inl, inr, if◌then◌else◌, refl, arith, ap, ◌∙◌, Ends, ltb,
}
use os_lab.Mm.FirstFit.Defs.{FreeArea}
use os_lab.Mm.Tables.Defs.{
  PmmManager, Memory, Slot, word_at, set_word, is_valid, pte2page, pdx1, pdx0, ptx, page_ref,
  set_page_ref, page_ref_inc, page_ref_dec, let_go,
}
use os_lab.Mm.Tables.Tree.{leaf, IsAt, IsTree}
use os_lab.Mm.Tables.Manager.{Gives, Takes, AreApart}
use os_lab.Mm.Tables.Enter.{IsMemory}
use os_lab.Mm.Tables.GetPte.{pte_of, IsSlot}
use os_lab.Mm.Tables.Leaf.{hits, word_at-pte_of, set_leaf-IsSlot}
use os_lab.Mm.Tables.Remove.{one_less, gives_back, Removed, page_remove_pte_runs}

-- Whether the address is mapped to another page.
abbrev pub other_there : (Ptr → ℕ → ℕ) → (r la page : ℕ) → Bool
other_there w r la page = is_valid (pte_of w r la) && not (pte2page (pte_of w r la) == page)

-- The count of the page `q` after `page` has got the address.
abbrev pub count_after : Memory → (r la page q : ℕ) → ℕ
count_after m r la page q =
    if q == page
    then (if is_valid (pte_of m.words r la) && (pte2page (pte_of m.words r la) == page)
        then page_ref q m
        else (page_ref q m + 1) % 2 ^ 32)
    else if is_valid (pte_of m.words r la) && (q == pte2page (pte_of m.words r la))
    then one_less (page_ref q m)
    else page_ref q m

abbrev pub freed_after : Memory → (r la page q : ℕ) → Bool
freed_after m r la page q =
    other_there m.words r la page
    && ((q == pte2page (pte_of m.words r la)) && (one_less (page_ref q m) == 0))

-- The tables are ready for the new entry.
pub record Ready (Sound : FreeArea → (Ptr → Bool) → Type 0) (m : Memory) (r : Ptr) (place : Ptr → ℕ)
    (free : Ptr → Bool) (la : ℕ) (e : Slot) (page c : ℕ) (m' : Memory) : Type 0 where
  pub free' : Ptr → Bool
  pub sound : Sound m'.area free'
  pub tree : IsTree m'.words m'.npage r place free'
  pub same_npage : m'.npage ≡ m.npage
  pub slot : IsSlot m'.words r la e
  pub others :
      (i j k : ℕ)
      → i < 511
      → j < 512
      → k < 512
      → hits la i j k ≡ false
      → leaf m'.words r i j k ≡ leaf m.words r i j k
  pub page_at : IsAt m'.npage place free' page c
  pub refs : (q : Ptr) → page_ref q m' ≡ count_after m r la page q
  pub freed : (q : Ptr) → free' q ≡ (freed_after m r la page q || free q)

set_ref :
    (page v q : ℕ) (x : Memory)
    → page_ref q (set_page_ref page v x) ≡ (if q == page then v else page_ref q x)
set_ref page v q x = ground arith

module _ (pmm : PmmManager) (Sound : FreeArea → (Ptr → Bool) → Type 0) (g : Gives pmm Sound)
    {kernel : Ptr → Bool} (t : Takes pmm Sound kernel) where
  module _ (m : Memory) (r : Ptr) (place : Ptr → ℕ) (free : Ptr → Bool)
      (is : IsMemory Sound m r place free) (la : ℕ) (e : Slot) (s : IsSlot m.words r la e)
      (page c : ℕ) (at : IsAt m.npage place free page c) (few : page_ref page m < 2 ^ 32)
      (ours : AreApart kernel place)
      (top : is_valid (pte_of m.words r la) ≡ true → free (m.npage - 1) ≡ true) where
    counted : IsMemory Sound (page_ref_inc page m) r place free
    counted = record {
      sound = g.keeps_ref m.area free page ((page_ref page m + 1) % 2 ^ 32) is.sound;
      tree = is.tree;
    }

    not_mapped :
        is_valid (pte_of m.words r la) ≡ false
        → Ready Sound m r place free la e page c (page_ref_inc page m)
    not_mapped out = record {
      free' = free;
      sound = counted.sound;
      tree = is.tree;
      same_npage = refl;
      slot = s;
      others = λ i j k li lj lk h. refl;
      page_at = at;
      refs = λ q. rw out (ground arith);
      freed = λ q. rw out refl;
    }

    inc_ref :
        (q : Ptr)
        → page_ref q (page_ref_inc page m)
          ≡ (if q == page then (page_ref q m + 1) % 2 ^ 32 else page_ref q m)
    inc_ref q = ground arith

    dec_inc : (q : Ptr) → page_ref q (page_ref_dec page (page_ref_inc page m)) ≡ page_ref q m
    dec_inc q =
        let up : page_ref page (page_ref_inc page m) ≡ (page_ref page m + 1) % 2 ^ 32 =
          inc_ref page ∙ rw (==_refl page) refl in
        let back : (page_ref page (page_ref_inc page m) + 2 ^ 32 - 1) % 2 ^ 32 ≡ page_ref page m =
          omega (arith, up, few) in
        set_ref page ((page_ref page (page_ref_inc page m) + 2 ^ 32 - 1) % 2 ^ 32) q
          (page_ref_inc page m)
        ∙ elim (Bool-cases (q == page)) [
          | inl same ↦
              let eq : page_ref page m ≡ page_ref q m =
                ap (λ (x : ℕ). page_ref x m) (ground (arith, same)) in
              rw same (back ∙ eq)
          | inr differ ↦
              let eq : page_ref q (page_ref_inc page m) ≡ page_ref q m =
                inc_ref q ∙ rw differ refl in
              rw differ eq
        ]

    kept_count :
        is_valid (pte_of m.words r la) ≡ true
        → (pte2page (pte_of m.words r la) == page) ≡ true
        → (q : Ptr) → page_ref q m ≡ count_after m r la page q
    kept_count v again q = elim (Bool-cases (q == page)) [
      | inl same ↦ rw (v, again, same) refl
      | inr differ ↦
          let apart : (q == pte2page (pte_of m.words r la)) ≡ false = ground arith in
          rw (v, differ, apart) refl
    ]

    moved :
        is_valid (pte_of m.words r la) ≡ true
        → (pte2page (pte_of m.words r la) == page) ≡ false
        → (q : Ptr)
        → (if is_valid (pte_of m.words r la) && (q == pte2page (pte_of m.words r la))
            then one_less (page_ref q (page_ref_inc page m))
            else page_ref q (page_ref_inc page m))
          ≡ count_after m r la page q
    moved v other q = elim (Bool-cases (q == page)) [
      | inl same ↦
          let apart : (q == pte2page (pte_of m.words r la)) ≡ false = ground arith in
          rw (inc_ref q, v, other, apart, same) refl
      | inr differ ↦ rw (inc_ref q, v, differ) refl
    ]

    moved_back :
        is_valid (pte_of m.words r la) ≡ true
        → (pte2page (pte_of m.words r la) == page) ≡ false
        → (q : Ptr) → gives_back (page_ref_inc page m) r la q ≡ freed_after m r la page q
    moved_back v other q = elim (Bool-cases (q == page)) [
      | inl same ↦
          let apart : (q == pte2page (pte_of m.words r la)) ≡ false = ground arith in
          rw (v, other, apart) refl
      | inr differ ↦ rw (inc_ref q, v, other, differ) refl
    ]

    already :
        is_valid (pte_of m.words r la) ≡ true
        → (pte2page (pte_of m.words r la) == page) ≡ true
        → Ready Sound m r place free la e page c (page_ref_dec page (page_ref_inc page m))
    already v again = record {
      free' = free;
      sound = g.keeps_ref (page_ref_inc page m).area free page _ counted.sound;
      tree = is.tree;
      same_npage = refl;
      slot = s;
      others = λ i j k li lj lk h. refl;
      page_at = at;
      refs = λ q. dec_inc q ∙ kept_count v again q;
      freed = λ q. rw (v, again) refl;
    }

    another :
        (m' : Memory)
        → is_valid (pte_of m.words r la) ≡ true
        → (pte2page (pte_of m.words r la) == page) ≡ false
        → Removed Sound (page_ref_inc page m) r place free la m'
        → m'.words ≡ set_word m.words e 0
        → Ready Sound m r place free la e page c m'
    another m' v other done words =
        let apart : (page == pte2page (pte_of m.words r la)) ≡ false = ground arith in
        record {
          free' = done.free';
          sound = done.memory.sound;
          tree = done.memory.tree;
          same_npage = done.same_npage;
          slot = rw words (set_leaf-IsSlot is.tree la e s 0);
          others = λ i j k li lj lk h. done.leaves i j k li lj lk ∙ rw (v, h) refl;
          page_at = record {
            here = at.here;
            below = rw (done.same_npage) (at.below);
            used = done.given_back page ∙ rw (v, apart) (at.used);
            ne_null = at.ne_null;
          };
          refs = λ q. done.refs q ∙ moved v other q;
          freed = λ q. done.given_back q ∙ ap (λ b. b || free q) (moved_back v other q);
        }

    pub let_go_lem :
        Ends
          (let_go pmm e page (page_ref_inc page m))
          λ m'. Ready Sound m r place free la e page c m'
    let_go_lem =
        let same = word_at-pte_of is.tree la e s in
        elim (Bool-cases (is_valid (word_at m.words e))) [
          | inr out ↦ rw out (page_ref_inc page m, refl, not_mapped (rw same at out))
          | inl v ↦ elim (Bool-cases (pte2page (word_at m.words e) == page)) [
            | inl again ↦
                let at =
                  is.tree.mapped (pdx1 la) (pdx0 la) (ptx la) s.user (omega arith) (omega arith)
                    (rw same at v) in
                let lt : ltb (pte2page (word_at m.words e)) m.npage ≡ true =
                  rw same (ground (arith, at.below)) in
                rw (v, again, lt)
                  (
                    page_ref_dec page (page_ref_inc page m),
                    refl,
                    already (rw same at v) (rw same at again),
                  )
            | inr other ↦
                let (m', run, (done, words)) =
                  page_remove_pte_runs pmm Sound (page_ref_inc page m) r place free counted la
                    s.user g t ours top e s v in
                rw (v, other) (m', run, another m' (rw same at v) (rw same at other) done words)
          ]
        ]
