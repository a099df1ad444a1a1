-- ===== src/Mm/Tables/Insert.antt =====
-- `page_insert` maps an address to a page, and lets go of the page that was there.
use os_lab.Base.{
  Ptr, null, ℕ, ap, ◌-◌, ◌^◌, ◌<◌, ◌≡◌, ◌≢◌, ◌⊎◌, ==_ne, ==_refl, Bool, true, false, Bool-cases,
  inl, inr, if◌then◌else◌, refl, arith, ◌∙◌, Ends, update,
}
use os_lab.Base.Int.{pos}
use os_lab.Mm.FirstFit.Defs.{FreeArea}
use os_lab.Mm.Areas.Defs.{e_no_mem}
use os_lab.Mm.Tables.Defs.{
  PmmManager, Memory, Slot, null_slot, set_word, is_valid, pte2page, pte_create, with_valid, pdx1,
  pdx0, ptx, page_ref, page_insert,
}
use os_lab.Mm.Tables.Tree.{or_false, leaf, data_place, no_place, IsAt, IsAt_ne, pte2page-pte_create}
use os_lab.Mm.Tables.Manager.{Gives, Takes, AreApart}
use os_lab.Mm.Tables.Enter.{IsMemory, Extends}
use os_lab.Mm.Tables.GetPte.{pte_of, has_tables, IsSlot, Reached, get_pte_lem}
use os_lab.Mm.Tables.Leaf.{hits, slot-IsAt, set_leaf, set_leaf-IsTree}
use os_lab.Mm.Tables.LetGo.{count_after, freed_after, Ready, let_go_lem}

-- The address is mapped to the page, and every other one is as it was.
pub record Inserted (Sound : FreeArea → (Ptr → Bool) → Type 0) (m : Memory) (r : Ptr)
    (place : Ptr → ℕ) (free : Ptr → Bool) (la page perm : ℕ) (m' : Memory) : Type 0 where
  pub place' : Ptr → ℕ
  pub free' : Ptr → Bool
  pub memory : IsMemory Sound m' r place' free'
  pub leaves :
      (i j k : ℕ)
      → i < 511
      → j < 512
      → k < 512
      → leaf m'.words r i j k
        ≡ (if hits la i j k then pte_create page (with_valid perm) else leaf m.words r i j k)
  pub refs : (q : Ptr) → free q ≡ false → page_ref q m' ≡ count_after m r la page q
  pub freed : (q : Ptr) → free q ≡ false → free' q ≡ freed_after m r la page q
  pub same_npage : m'.npage ≡ m.npage
  pub places : (q : Ptr) → free q ≡ false → q ≢ page → place' q ≡ place q
  pub still_free : has_tables m.words r la ≡ true → (q : Ptr) → free q ≡ true → free' q ≡ true

module _ (pmm : PmmManager) (Sound : FreeArea → (Ptr → Bool) → Type 0) (g : Gives pmm Sound)
    {kernel : Ptr → Bool} (t : Takes pmm Sound kernel) where
  module _ (m : Memory) (r : Ptr) (place : Ptr → ℕ) (free : Ptr → Bool)
      (is : IsMemory Sound m r place free) (la : ℕ) (e : Slot) (s : IsSlot m.words r la e)
      (page c : ℕ) (at : IsAt m.npage place free page c) (few : page_ref page m < 2 ^ 32) where
    other_kept :
        c ≡ no_place ⊎ c ≡ data_place (pdx1 la) (pdx0 la) (ptx la)
        → {free' : Ptr → Bool} {npage : ℕ} → IsAt npage place free' page c
        → (q d : ℕ) → IsAt npage place free' q d
        → d ≢ data_place (pdx1 la) (pdx0 la) (ptx la)
        → d < no_place
        → IsAt npage (update place page (data_place (pdx1 la) (pdx0 la) (ptx la))) free' q d
    other_kept where_is new q d a ne lt =
        let apart =
          IsAt_ne q page d c a new (λ same. elim where_is [
            | inl x ↦ omega (arith, same, x, lt)
            | inr x ↦ ne (same ∙ x)
          ]) in
        record {
          here = rw (==_ne q page apart) (a.here);
          below = a.below;
          used = a.used;
          ne_null = a.ne_null;
        }

    same_else :
        (m' : Memory)
        → Ready Sound m r place free la e page c m'
        → (v i j k : ℕ) → i < 511
        → j < 512
        → k < 512
        → (if hits la i j k then v else leaf m'.words r i j k)
          ≡ (if hits la i j k then v else leaf m.words r i j k)
    same_else m' ready v i j k li lj lk = elim (Bool-cases (hits la i j k)) [
      | inl hit ↦ rw hit refl
      | inr miss ↦ rw miss (ready.others i j k li lj lk miss)
    ]

    -- Writing the new entry into ready tables.
    inserted :
        (perm : ℕ)
        → perm < 1024
        → c ≡ no_place ⊎ c ≡ data_place (pdx1 la) (pdx0 la) (ptx la)
        → (m' : Memory) → m'.npage ≡ m.npage
        → Ready Sound m r place free la e page c m'
        → Inserted Sound m r place free la page perm
            (record m' { words = set_word m'.words e (pte_create page (with_valid perm)) })
    inserted perm lp where_is m' np ready =
        let v = pte_create page (with_valid perm) in
        let lt : page < 2 ^ 44 = omega (arith, at.below, is.tree.few) in
        let kept : pte2page v ≡ page =
          pte2page-pte_create page (with_valid perm) lt (omega arith) in
        record {
          place' = update place page (data_place (pdx1 la) (pdx0 la) (ptx la));
          free' = ready.free';
          memory = record {
            sound = ready.sound;
            tree =
                set_leaf-IsTree ready.tree la e ready.slot v
                  (update place page (data_place (pdx1 la) (pdx0 la) (ptx la))) ready.free'
                  (other_kept where_is ready.page_at)
                  (λ z. rw kept (record {
                    here = rw (==_refl page) refl;
                    below = ready.page_at.below;
                    used = ready.page_at.used;
                    ne_null = at.ne_null;
                  }))
                  ready.tree.free_below;
          };
          leaves = λ i j k li lj lk.
              set_leaf ready.tree la e ready.slot v i j k li lj lk
              ∙ same_else m' ready v i j k li lj lk;
          refs = λ q u. ready.refs q;
          freed = λ q u. ready.freed q ∙ rw u (or_false (freed_after m r la page q));
          same_npage = np;
          places = λ q u ne. rw (==_ne q page ne) refl;
          still_free = λ there q f. ready.freed q ∙ rw f (ground arith);
        }

  -- The same, from the memory before `get_pte`.
  since :
      (m m1 : Memory) (r : Ptr) (place place1 : Ptr → ℕ) (free free1 : Ptr → Bool)
      → (la page perm : ℕ) → pdx1 la < 511
      → Extends m m1 r place place1 free free1
      → (has_tables m.words r la ≡ true → (m1 ≡ m) × (free1 ≡ free))
      → (m' : Memory) → Inserted Sound m1 r place1 free1 la page perm m'
      → Inserted Sound m r place free la page perm m'
  since m m1 r place place1 free free1 la page perm user x stays m' done =
      let same : pte_of m1.words r la ≡ pte_of m.words r la =
        x.leaves (pdx1 la) (pdx0 la) (ptx la) user (omega arith) (omega arith) in
      record {
        place' = done.place';
        free' = done.free';
        memory = done.memory;
        leaves = λ i j k li lj lk. done.leaves i j k li lj lk ∙ rw (x.leaves i j k li lj lk) refl;
        refs = λ q u. done.refs q (x.less_free q u) ∙ rw (same, x.refs q u) refl;
        freed = λ q u. done.freed q (x.less_free q u) ∙ rw (same, x.refs q u) refl;
        same_npage = done.same_npage ∙ x.same_npage;
        places = λ q u ne. done.places q (x.less_free q u) ne ∙ x.places q u;
        still_free = λ there q f.
            let (e, e') = stays there in
            done.still_free (ap (λ (y : Memory). has_tables y.words r la) e ∙ there) q
              (ap (λ h. h q) e' ∙ f);
      }

  -- After `get_pte`: it takes no page if the address is mapped.
  still_there :
      (m m1 : Memory) (r : Ptr) (place : Ptr → ℕ) (free : Ptr → Bool) (la : ℕ) (e : Slot)
      → IsMemory Sound m r place free
      → (a : Reached Sound m r place free la true e m1) → AreApart kernel place
      → (is_valid (pte_of m.words r la) ≡ true → free (m.npage - 1) ≡ true)
      → pdx1 la < 511
      → AreApart kernel a.place'
        × (is_valid (pte_of m1.words r la) ≡ true → a.free' (m1.npage - 1) ≡ true)
  still_there m m1 r place free la e is a ours top user = (
    λ q k. a.extends.places q (t.kernel_used m.area free q is.sound k) ∙ ours q k,
    λ v.
        let same : pte_of m1.words r la ≡ pte_of m.words r la =
          a.extends.leaves (pdx1 la) (pdx0 la) (ptx la) user (omega arith) (omega arith) in
        let v0 : is_valid (pte_of m.words r la) ≡ true = rw same at v in
        let there : has_tables m.words r la ≡ true = ground (arith, v0) in
        let (e1, p1, f1) = a.same (rw there refl) in
        ap (λ h. h (m1.npage - 1)) f1 ∙ (ap (λ (x : Memory). free (x.npage - 1)) e1 ∙ top v0),
  )

  -- Over a manager that hands out pages and takes them back as the contract says, from a memory
  -- whose page tables below the last gigabyte are a tree of pages in use, none of them the
  -- kernel's for good, for an address below the last gigabyte, a page in use that the tables do
  -- not have, or have at this address, with a count below 2 ^ 32, and permissions below 1024, if
  -- the last page of memory is free or the address is not mapped yet, page_insert ends. Either it
  -- answers -E_NO_MEM, which it does only if a table is missing and no page is free any more, and
  -- no address is translated differently; or it answers 0, the address is mapped to the page, with
  -- these permissions, every other address below the last gigabyte is mapped as before, and the
  -- tables are a tree again. Then of the pages that were in use, the page counts one use more,
  -- unless it had the address already, the page that it takes the address from counts one less and
  -- is free if none is left, and no other changes.
  pub page_insert_lem :
      (m : Memory) (r : Ptr) (place : Ptr → ℕ) (free : Ptr → Bool) (la page perm c : ℕ)
      → IsMemory Sound m r place free
      → IsAt m.npage place free page c
      → c ≡ no_place ⊎ c ≡ data_place (pdx1 la) (pdx0 la) (ptx la)
      → page_ref page m < 2 ^ 32
      → perm < 1024
      → pdx1 la < 511
      → AreApart kernel place
      → (is_valid (pte_of m.words r la) ≡ true → free (m.npage - 1) ≡ true)
      → Ends (page_insert pmm r page la perm m) λ (n, m').
        ((n ≡ e_no_mem) × Reached Sound m r place free la true null_slot m')
        ⊎ ((n ≡ pos 0) × Inserted Sound m r place free la page perm m')
  unfolding page_insert
  page_insert_lem m r place free la page perm c is at where_is few lp user ours top =
      let ((e, m1), run, a) = get_pte_lem pmm Sound g m r place free la true user is in
      elim a.found [
        | inl (nil, out) ↦ rw (run, nil) ((e_no_mem, m1), refl, inl (refl, rw nil at a))
        | inr s ↦
            let at1 : IsAt m1.npage a.place' a.free' page c = record {
              here = a.extends.places page at.used ∙ at.here;
              below = rw (a.extends.same_npage) (at.below);
              used = a.extends.less_free page at.used;
              ne_null = at.ne_null;
            } in
            let few1 : page_ref page m1 < 2 ^ 32 = rw (a.extends.refs page at.used) few in
            let (ours1, top1) = still_there m m1 r place free la e is a ours top user in
            let (m2, run2, ready) =
              let_go_lem pmm Sound g t m1 r a.place' a.free' a.memory la e s page c at1 few1 ours1
                top1 in
            rw (run, ==_ne e.page null (slot-IsAt a.memory.tree la e s).ne_null, run2)
              (
                _,
                refl,
                inr (
                  refl,
                  since m m1 r place a.place' free a.free' la page perm user a.extends
                      (λ there. let (e1, p1, f1) = a.same (rw there refl) in (e1, f1)) _
                      (inserted m1 r a.place' a.free' a.memory la e s page c at1 few1 perm lp
                        where_is m2 ready.same_npage ready),
                ),
              )
      ]
