-- ===== src/Mm/Tables/Exit.antt =====
-- `exit_range` on a range within one table: what it gives back with the table.
use os_lab.Base.{
  Ptr, ℕ, ap, ◌≢◌, suc, ◌+◌, ◌-◌, ◌/◌, ◌%◌, ◌^◌, ◌<◌, ◌≤◌, ◌≡◌, ◌⊎◌, ◌==◌, ==_ne, Bool, true, false,
  not, ◌&&◌, Bool-cases, inl, inr, if◌then◌else◌, refl, arith, ltb, Ends, some,
}
use os_lab.Mm.FirstFit.Defs.{FreeArea}
use os_lab.Mm.Areas.Defs.{user_access}
use os_lab.Mm.Tables.Defs.{PmmManager, Memory, is_valid, pte2page, pdx1, pdx0, set_word, free_page}
use os_lab.Mm.Tables.Tree.{leaf, mid_place, low_place, IsAt_ne}
use os_lab.Mm.Tables.Manager.{Takes, with_page, Room, AreApart, not_kernel, used-Room}
use os_lab.Mm.Tables.Enter.{IsMemory}
use os_lab.Mm.Tables.Ranges.{no_entries, exit_table, exit_tables, exit_dir, exit_dirs, exit_range}
use os_lab.Mm.Tables.Cleared.{free_after, cleared-leaf, cleared-IsTree}

-- The table, the directory above it, and what they held.
pub record Exited (Sound : FreeArea → (Ptr → Bool) → Type 0) (m : Memory) (r : Ptr)
    (place : Ptr → ℕ) (free : Ptr → Bool) (la : ℕ) (m' : Memory) : Type 0 where
  pub memory : IsMemory Sound m' r place (
      free_after free
        (pte2page (m.words (pte2page (m.words r (pdx1 la))) (pdx0 la)))
        (pte2page (m.words r (pdx1 la)))
        (no_entries 512 0 (pte2page (m.words (pte2page (m.words r (pdx1 la))) (pdx0 la))) m.words))
  pub leaves :
      (i j k : ℕ)
      → i < 511
      → j < 512
      → leaf m'.words r i j k ≡ (if i == pdx1 la then 0 else leaf m.words r i j k)

module _ (pmm : PmmManager) (Sound : FreeArea → (Ptr → Bool) → Type 0) {kernel : Ptr → Bool}
    (t : Takes pmm Sound kernel) (m : Memory) (r : Ptr) (place : Ptr → ℕ) (free : Ptr → Bool)
    (is : IsMemory Sound m r place free) (start finish : ℕ) (lt : start < finish)
    (up : finish ≤ start - start % 2 ^ 21 + 2 ^ 21) (low : finish ≤ 2 ^ 31)
    (ours : AreApart kernel place) (top : free (m.npage - 1) ≡ true) where
  abbrev d1 : ℕ
  d1 = start - start % 2 ^ 30

  abbrev d0 : ℕ
  d0 = start - start % 2 ^ 21

  same1 : pdx1 d1 ≡ pdx1 start
  same1 = omega arith

  same0 : pdx0 d0 ≡ pdx0 start
  same0 = omega arith

  abbrev dir : Ptr
  dir = pte2page (m.words r (pdx1 start))

  abbrev table : Ptr
  table = pte2page (m.words dir (pdx0 start))

  abbrev empty : Bool
  empty = no_entries 512 0 table m.words

  stops1 : (not ((d1 + 2 ^ 30) % 2 ^ 64 == 0) && ltb ((d1 + 2 ^ 30) % 2 ^ 64) finish) ≡ false
  stops1 = ground arith

  stops0 :
      (not ((d0 + 2 ^ 21) % 2 ^ 64 == 0)
        && (ltb ((d0 + 2 ^ 21) % 2 ^ 64) ((d1 + 2 ^ 30) % 2 ^ 64)
            && ltb ((d0 + 2 ^ 21) % 2 ^ 64) finish))
      ≡ false
  stops0 = ground arith

  module _ (v : is_valid (m.words r (pdx1 start)) ≡ true)
      (v' : is_valid (m.words dir (pdx0 start)) ≡ true) where
    record Emptied (m' : Memory) : Type 0 where
      sound : Sound m'.area (if empty then with_page free table else free)
      words : m'.words ≡ (
          if empty then set_word m.words (record { page = dir; index = pdx0 start }) 0 else m.words)
      npage : m'.npage ≡ m.npage

    exit_table_runs : Ends (exit_table pmm dir d0 true m) λ (b, m'). (b ≡ true) × Emptied m'
    unfolding exit_table free_page
    exit_table_runs =
        let a = is.tree.low (pdx1 start) (pdx0 start) (omega arith) (omega arith) v v' in
        let below : ltb table m.npage ≡ true = ground (arith, a.below) in
        elim (Bool-cases empty) [
          | inr more ↦
              rw (same0, v', below, more)
                (
                  (true, m),
                  refl,
                  (refl, record { sound = rw more (is.sound); words = rw more refl; npage = refl }),
                )
          | inl none_left ↦
              let (area, run, (sound, refs)) =
                t.takes m.area free table is.sound a.used a.ne_null
                  (not_kernel table _ a kernel ours (omega arith))
                  (omega (arith, a.below, is.tree.few)) (used-Room table _ a top) in
              rw (same0, v', below, none_left, run)
                (
                  _,
                  refl,
                  (
                    refl,
                    record { sound = rw none_left sound; words = rw none_left refl; npage = refl },
                  ),
                )
        ]

    exit_tables_runs :
        (f : ℕ)
        → Ends (exit_tables pmm (suc f) dir d1 d0 finish true m) λ (b, m'). (b ≡ true) × Emptied m'
    unfolding exit_tables
    exit_tables_runs f =
        let ((b, m'), run, done) = exit_table_runs in rw (run, stops0) ((b, m'), refl, done)

    dir_used : (if empty then with_page free table else free) dir ≡ false
    dir_used =
        let a = is.tree.mid (pdx1 start) (omega arith) v in
        let b = is.tree.low (pdx1 start) (pdx0 start) (omega arith) (omega arith) v v' in
        let apart = ==_ne dir table (
          IsAt_ne dir table (mid_place (pdx1 start)) (low_place (pdx1 start) (pdx0 start)) a b
            (omega arith)) in
        elim (Bool-cases empty) [ inl e ↦ rw (e, apart) (a.used) | inr e ↦ rw e (a.used) ]

    dir-Room : Room (if empty then with_page free table else free) dir
    dir-Room =
        let a = is.tree.mid (pdx1 start) (omega arith) v in
        let ne : dir ≢ m.npage - 1 = λ e. absurd (ground (arith, a.used, top, ap free e)) in
        elim (Bool-cases empty) [
          | inl e ↦ rw e (inr (m.npage - 1, omega (arith, a.below, ne), ground (arith, top)))
          | inr e ↦ rw e (used-Room dir _ a top)
        ]

    exit_dir_runs : Ends (exit_dir pmm r d1 d0 finish m) λ m'. Exited Sound m r place free start m'
    unfolding exit_dir free_page
    exit_dir_runs =
        let a = is.tree.mid (pdx1 start) (omega arith) v in
        let below : ltb dir m.npage ≡ true = ground (arith, a.below) in
        let ((b, m1), run, (flag, gone)) = exit_tables_runs 511 in
        let (area, run', (sound, refs)) =
          t.takes m1.area (if empty then with_page free table else free) dir gone.sound dir_used
            a.ne_null (not_kernel dir _ a kernel ours (omega arith))
            (omega (arith, a.below, is.tree.few)) dir-Room in
        rw (same1, v, below, run, flag, run', gone.words)
          (
            _,
            refl,
            record {
              memory = record {
                sound = sound;
                tree = rw (gone.npage) (
                    cleared-IsTree is.tree (pdx1 start) (pdx0 start) (omega arith) (omega arith) v
                      v' empty);
              };
              leaves = λ i j k li lj.
                  cleared-leaf is.tree (pdx1 start) (pdx0 start) (omega arith) (omega arith) v v'
                    empty i j k li lj;
            },
          )

  exit_dirs_once :
      (f : ℕ) (m' : Memory)
      → exit_dir pmm r d1 d0 finish m ≡ some m'
      → exit_dirs pmm (suc f) r d1 d0 finish m ≡ some m'
  unfolding exit_dirs
  exit_dirs_once f m' run = rw (run, stops1) refl

  exit_tables_missing :
      (f : ℕ)
      → is_valid (m.words dir (pdx0 start)) ≡ false
      → exit_tables pmm (suc f) dir d1 d0 finish true m ≡ some (false, m)
  unfolding exit_tables exit_table
  exit_tables_missing f out = rw (same0, out, stops0) refl

  -- No table at the address.
  exit_dir_missing :
      (is_valid (m.words r (pdx1 start)) && is_valid (m.words dir (pdx0 start))) ≡ false
      → exit_dir pmm r d1 d0 finish m ≡ some m
  unfolding exit_dir
  exit_dir_missing out = elim (Bool-cases (is_valid (m.words r (pdx1 start)))) [
    | inr none_there ↦ rw (same1, none_there) refl
    | inl v ↦
        let out' : is_valid (m.words dir (pdx0 start)) ≡ false = rw v at out in
        let below : ltb dir m.npage ≡ true =
          ground (arith, (is.tree.mid (pdx1 start) (omega arith) v).below) in
        rw (same1, v, below, exit_tables_missing 511 out') refl
  ]

  -- Over a manager that takes pages back as the contract says, from a memory whose page tables
  -- below the last gigabyte are a tree of pages in use, none of them the kernel's for good, where
  -- the last page of memory is free, for a range of whole pages in the user's addresses that one
  -- table of the last level covers, exit_range ends. If that table is missing, nothing changes.
  -- Otherwise the directory of the gigabyte around the range is given back, together with the
  -- table if it has no valid entry: no address of the gigabyte is mapped any more, whatever other
  -- tables and pages there were, and every other address below the last gigabyte is translated as
  -- before.
  pub exit_range_lem :
      start % 4096 ≡ 0
      → finish % 4096 ≡ 0
      → user_access start finish ≡ true
      → Ends (exit_range pmm r start finish m) λ m'.
        (((is_valid (m.words r (pdx1 start)) && is_valid (m.words dir (pdx0 start))) ≡ false)
          × (m' ≡ m))
        ⊎ (((is_valid (m.words r (pdx1 start)) && is_valid (m.words dir (pdx0 start))) ≡ true)
            × Exited Sound m r place free start m')
  unfolding exit_range
  exit_range_lem ps pf user =
      let s0 : (start % 4096 == 0) ≡ true = ground arith in
      let f0 : (finish % 4096 == 0) ≡ true = ground arith in
      let fuel : (finish - d1) / 2 ^ 30 + 1 ≡ suc ((finish - d1) / 2 ^ 30) = omega arith in
      elim (Bool-cases (is_valid (m.words r (pdx1 start)) && is_valid (m.words dir (pdx0 start)))) [
        | inr out ↦
            rw
              (s0, f0, user, fuel, exit_dirs_once ((finish - d1) / 2 ^ 30) m (exit_dir_missing out))
              (m, refl, inl (out, refl))
        | inl both ↦
            let (m', run, done) = exit_dir_runs (ground (arith, both)) (ground (arith, both)) in
            rw (s0, f0, user, fuel, exit_dirs_once ((finish - d1) / 2 ^ 30) m' run)
              (m', refl, inr (both, done))
      ]
