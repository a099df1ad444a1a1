-- ===== src/Mm/Tables/Unmap.antt =====
-- `unmap_range`: the loop over the pages of the range, which steps over tables that are missing.
use os_lab.Base.{
  Ptr, null, ℕ, suc, ◌+◌, ◌-◌, ◌*◌, ◌/◌, ◌%◌, ◌^◌, ◌<◌, ◌≤◌, ◌≡◌, ◌==◌, ==_ne, Bool, true, not,
  ◌&&◌, Bool-cases, inl, inr, refl, arith, ap, sym, ◌∙◌, ltb, Ends, subst,
}
use os_lab.Mm.FirstFit.Defs.{FreeArea}
use os_lab.Mm.Areas.Defs.{user_access}
use os_lab.Mm.Tables.Defs.{PmmManager, Memory, pdx1, pdx0, word_at}
use os_lab.Mm.Tables.Tree.{leaf}
use os_lab.Mm.Tables.Manager.{Gives, Takes, AreApart}
use os_lab.Mm.Tables.Enter.{IsMemory}
use os_lab.Mm.Tables.GetPte.{pte_of}
use os_lab.Mm.Tables.Leaf.{slot-IsAt, word_at-pte_of}
use os_lab.Mm.Tables.Read.{get_pte_reads}
use os_lab.Mm.Tables.Remove.{Removed, nothing_there, page_remove_pte_lem}
use os_lab.Mm.Tables.Ranges.{next_table, unmap_page, unmap_pages, unmap_range}
use os_lab.Mm.Tables.Cover.{address-table}
use os_lab.Mm.Tables.Unmapped.{Unmapped, Unmapped-nothing, Removed-Unmapped}
use os_lab.Mm.Tables.Then.{Unmapped-then}

-- After a round: the next address, and what is unmapped up to there.
record Round (Sound : FreeArea → (Ptr → Bool) → Type 0) (m : Memory) (r : Ptr) (place : Ptr → ℕ)
    (free : Ptr → Bool) (start next : ℕ) (m' : Memory) : Type 0 where
  later : start + 4096 ≤ next
  aligned : next % 4096 ≡ 0
  near : next ≤ start + 2 ^ 21
  upto : (hi : ℕ) → start + 4096 ≤ hi → hi ≤ next → Unmapped Sound m r place free start hi m'

module _ (pmm : PmmManager) (Sound : FreeArea → (Ptr → Bool) → Type 0) (g : Gives pmm Sound)
    {kernel : Ptr → Bool} (t : Takes pmm Sound kernel) where
  module _ (m : Memory) (r : Ptr) (place : Ptr → ℕ) (free : Ptr → Bool)
      (is : IsMemory Sound m r place free) (start : ℕ) (low : start < 2 ^ 31)
      (page : start % 4096 ≡ 0) (ours : AreApart kernel place)
      (top : free (m.npage - 1) ≡ true) where
    user : pdx1 start < 511
    user = omega (arith, low)

    missing :
        ((k : ℕ) → leaf m.words r (pdx1 start) (pdx0 start) k ≡ 0)
        → Round Sound m r place free start (next_table start) m
    missing out = record {
      later = omega arith;
      aligned = omega arith;
      near = omega arith;
      upto = λ hi more up. Unmapped-nothing Sound m r place free is start hi λ i j k li lj lk c.
          let (ei, ej) =
            address-table start i j k page (omega arith) li lj lk (ground (arith, c))
              (ground (arith, c, up)) in
          rw (ei, ej, out k) refl;
    }

    one_page :
        (m' : Memory)
        → Removed Sound m r place free start m'
        → Round Sound m r place free start ((start + 4096) % 2 ^ 64) m'
    one_page m' done = record {
      later = omega arith;
      aligned = omega arith;
      near = omega arith;
      upto = λ hi more up.
          let e : start + 4096 ≡ hi = omega arith in
          subst (λ h. Unmapped Sound m r place free start h m') e
            (Removed-Unmapped Sound m r place free is start m' (omega arith) user page done);
    }

    unmap_page_lem :
        Ends (unmap_page pmm r start m) λ (next, m'). Round Sound m r place free start next m'
    unfolding unmap_page
    unmap_page_lem =
        let ((e, m0), run, (same, found)) = get_pte_reads pmm Sound m r place free is start user in
        elim found [
          | inl (nil, out) ↦ rw (run, same, nil) ((next_table start, m), refl, missing out)
          | inr s ↦
              let there = ==_ne e.page null (slot-IsAt is.tree start e s).ne_null in
              elim (Bool-cases (word_at m.words e == 0)) [
                | inl zero_word ↦
                    let nil : pte_of m.words r start ≡ 0 =
                      sym (word_at-pte_of is.tree start e s) ∙ ground arith in
                    rw (run, same, there, zero_word)
                      (
                        _,
                        refl,
                        one_page m
                            (nothing_there pmm Sound m r place free is start user (rw nil refl)),
                      )
                | inr more ↦
                    let (m', run', done) =
                      page_remove_pte_lem pmm Sound m r place free is start user g t ours (λ v. top)
                        e s in
                    rw (run, same, there, more, run') (_, refl, one_page m' done)
              ]
        ]

  unmap_pages_lem :
      (f : ℕ) (m : Memory) (r : Ptr) (place : Ptr → ℕ) (free : Ptr → Bool) (start finish : ℕ)
      → IsMemory Sound m r place free
      → AreApart kernel place
      → free (m.npage - 1) ≡ true
      → start % 4096 ≡ 0
      → finish % 4096 ≡ 0
      → start < finish
      → finish ≤ 2 ^ 31
      → finish ≤ start + f * 4096
      → Ends
          (unmap_pages pmm f r start finish m)
          λ m'. Unmapped Sound m r place free start finish m'
  unfolding unmap_pages
  unmap_pages_lem Prim.Native.Nat.zero m r place free start finish is ours top ps pf lt up fuel =
      absurd (omega arith)
  unmap_pages_lem (suc f) m r place free start finish is ours top ps pf lt up fuel =
      let ((next, m1), run, round) =
        unmap_page_lem m r place free is start (omega arith) ps ours top in
      elim (Bool-cases (not (next == 0) && ltb next finish)) [
        | inl on ↦
            let a = round.upto next round.later (omega arith) in
            let (m2, run2, b) =
              unmap_pages_lem f m1 r place a.free' next finish a.memory ours
                (a.still_free (m1.npage - 1) (ap (λ (n : ℕ). free (n - 1)) a.same_npage ∙ top))
                round.aligned pf (ground (arith, on)) up (omega (arith, round.later)) in
            rw (run, on, run2)
              (
                m2,
                refl,
                Unmapped-then m is start next finish (omega (arith, round.later))
                    (ground (arith, on)) m1 a m2 b,
              )
        | inr off ↦
            rw (run, off)
              (m1, refl, round.upto finish (omega arith) (ground (arith, off, round.later)))
      ]

  -- Over a manager that hands out pages and takes them back as the contract says, from a memory
  -- whose page tables below the last gigabyte are a tree of pages in use, none of them the
  -- kernel's for good, where the last page of memory is free, for a range of whole pages in the
  -- user's addresses, unmap_range ends, and the tables are a tree again: no address of the range
  -- is mapped, each page that was mapped there counts one use less and is free exactly if none is
  -- left, every other address below the last gigabyte is mapped as before, a page that was free is
  -- still free, and no other page changes its count or whether it is free.
  pub unmap_range_lem :
      (m : Memory) (r : Ptr) (place : Ptr → ℕ) (free : Ptr → Bool) (start finish : ℕ)
      → IsMemory Sound m r place free
      → AreApart kernel place
      → free (m.npage - 1) ≡ true
      → start % 4096 ≡ 0
      → finish % 4096 ≡ 0
      → user_access start finish ≡ true
      → Ends (unmap_range pmm r start finish m) λ m'. Unmapped Sound m r place free start finish m'
  unfolding unmap_range
  unmap_range_lem m r place free start finish is ours top ps pf user =
      let lt : start < finish = ground (arith, user) in
      let up : finish ≤ 2 ^ 31 = ground (arith, user) in
      let (m', run, done) =
        unmap_pages_lem ((finish - start) / 4096) m r place free start finish is ours top ps pf lt
          up (omega arith) in
      let s0 : (start % 4096 == 0) ≡ true = ground arith in
      let f0 : (finish % 4096 == 0) ≡ true = ground arith in rw (s0, f0, user, run) (m', refl, done)
