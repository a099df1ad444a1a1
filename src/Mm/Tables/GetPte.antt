-- ===== src/Mm/Tables/GetPte.antt =====
-- `get_pte`: the entry of a page, with the tables above it, and nothing translated differently.
use os_lab.Base.{
  Ptr, ℕ, not, ◌&&◌, ◌||◌, ◌<◌, ◌∙◌, ap, Bool-cases, ◌≡◌, ◌⊎◌, Bool, true, false, inl, inr, refl,
  arith, sym, Ends, ltb,
}
use os_lab.Mm.FirstFit.Defs.{FreeArea}
use os_lab.Mm.Tables.Defs.{
  PmmManager, Memory, Slot, null_slot, is_valid, pte2page, pdx1, pdx0, ptx, from_low, from_mid,
  get_pte,
}
use os_lab.Mm.Tables.Tree.{leaf}
use os_lab.Mm.Tables.Manager.{Gives}
use os_lab.Mm.Tables.Enter.{IsMemory, Extends, Extends-trans, Entered, enter_mid, enter_low}

-- The entry for the address, as the page tables have it; 0 if a table is missing.
abbrev pub pte_of : (Ptr → ℕ → ℕ) → Ptr → ℕ → ℕ
pte_of w r la = leaf w r (pdx1 la) (pdx0 la) (ptx la)

-- Whether the tables for the address are there.
abbrev pub has_tables : (Ptr → ℕ → ℕ) → Ptr → ℕ → Bool
has_tables w r la = is_valid (w r (pdx1 la)) && is_valid (w (pte2page (w r (pdx1 la))) (pdx0 la))

-- The slot is the one that the tables lead to, below the last gigabyte.
pub record IsSlot (w : Ptr → ℕ → ℕ) (r la : ℕ) (e : Slot) : Type 0 where
  pub mid_valid : is_valid (w r (pdx1 la)) ≡ true
  pub low_valid : is_valid (w (pte2page (w r (pdx1 la))) (pdx0 la)) ≡ true
  pub page_is : e.page ≡ pte2page (w (pte2page (w r (pdx1 la))) (pdx0 la))
  pub index_is : e.index ≡ ptx la
  pub user : pdx1 la < 511

pub record Reached (Sound : FreeArea → (Ptr → Bool) → Type 0) (m : Memory) (r : Ptr)
    (place : Ptr → ℕ) (free : Ptr → Bool) (la : ℕ) (create : Bool) (e : Slot) (m' : Memory)
    : Type 0 where
  pub place' : Ptr → ℕ
  pub free' : Ptr → Bool
  pub memory : IsMemory Sound m' r place' free'
  pub extends : Extends m m' r place place' free free'
  pub same :
      (has_tables m.words r la || not create) ≡ true → (m' ≡ m) × (place' ≡ place) × (free' ≡ free)
  pub lacking :
      e ≡ null_slot
      → (has_tables m.words r la ≡ false) × (create ≡ true → (q : Ptr) → free' q ≡ false)
  pub found : ((e ≡ null_slot) × (pte_of m'.words r la ≡ 0)) ⊎ IsSlot m'.words r la e

module _ (pmm : PmmManager) (Sound : FreeArea → (Ptr → Bool) → Type 0) (g : Gives pmm Sound) where
  both_same :
      (m m1 m0 : Memory) (r : Ptr) (place : Ptr → ℕ) (free : Ptr → Bool) (la : ℕ) (create ok : Bool)
      → (a : Entered Sound m r place free (record { page = r; index = pdx1 la }) create true m1)
      → (b : Entered Sound m1 r a.place' a.free'
          (record { page = pte2page (m1.words r (pdx1 la)); index = pdx0 la })
          create
          ok
          m0)
      → (has_tables m.words r la || not create) ≡ true
      → (m0 ≡ m) × (b.place' ≡ place) × (b.free' ≡ free)
  both_same m m1 m0 r place free la create ok a b s =
      let (e1, p1, f1) = a.same (ground (arith, s)) in
      let there : (is_valid (m.words (pte2page (m.words r (pdx1 la))) (pdx0 la)) || not create)
          ≡ true =
        ground (arith, s) in
      let (e2, p2, f2) = b.same (
        ap
          (λ (x : Memory).
            is_valid (x.words (pte2page (x.words r (pdx1 la))) (pdx0 la)) || not create)
          e1
        ∙ there) in
      (e2 ∙ e1, p2 ∙ p1, f2 ∙ f1)

  second :
      (m m1 : Memory) (r : Ptr) (place : Ptr → ℕ) (free : Ptr → Bool) (la : ℕ) (create : Bool)
      → pdx1 la < 511
      → (a : Entered Sound m r place free (record { page = r; index = pdx1 la }) create true m1)
      → (ok : Bool) (m0 : Memory)
      → Entered Sound m1 r a.place' a.free'
          (record { page = pte2page (m1.words r (pdx1 la)); index = pdx0 la })
          create
          ok
          m0
      → Ends
          (from_low pmm
            (record { page = pte2page (m1.words r (pdx1 la)); index = pdx0 la })
            la
            ok
            m0)
          λ (e, m'). Reached Sound m r place free la create e m'
  second m m1 r place free la create user a false m0 b = (
    (null_slot, m0),
    refl,
    record {
      place' = b.place';
      free' = b.free';
      memory = b.memory;
      extends =
          Extends-trans m m1 m0 r place a.place' b.place' free a.free' b.free' a.extends b.extends;
      same = both_same m m1 m0 r place free la create false a b;
      lacking = λ e. elim (Bool-cases (is_valid (m.words r (pdx1 la)))) [
        | inr out ↦ (rw out refl, (b.lacking refl).1)
        | inl v ↦
            let e1 : m1 ≡ m = (a.same (rw v refl)).0 in
            (
              rw v (
                  ap (λ (x : Memory). is_valid (x.words (pte2page (x.words r (pdx1 la))) (pdx0 la)))
                    (sym e1)
                  ∙ (b.lacking refl).0),
              (b.lacking refl).1,
            )
      ];
      found =
          let root = b.extends.roots (pdx1 la) a.ok_valid in
          inl (refl, rw (root, a.ok_valid, b.ok_valid) refl);
    },
  )
  second m m1 r place free la create user a true m0 b =
      let root = b.extends.roots (pdx1 la) a.ok_valid in
      let v : is_valid (m0.words r (pdx1 la)) ≡ true = rw root a.ok_valid in
      let v' : is_valid (m0.words (pte2page (m0.words r (pdx1 la))) (pdx0 la)) ≡ true =
        rw root b.ok_valid in
      let at = b.memory.tree.low (pdx1 la) (pdx0 la) (omega arith) (omega arith) v v' in
      let lt : ltb (pte2page (m0.words (pte2page (m1.words r (pdx1 la))) (pdx0 la))) m0.npage
          ≡ true =
        rw (sym root) (ground (arith, at.below)) in
      rw lt (
        (
          record {
            page = pte2page (m0.words (pte2page (m1.words r (pdx1 la))) (pdx0 la));
            index = ptx la;
          },
          m0,
        ),
        refl,
        record {
          place' = b.place';
          free' = b.free';
          memory = b.memory;
          extends =
              Extends-trans m m1 m0 r place a.place' b.place' free a.free' b.free' a.extends
                b.extends;
          same = both_same m m1 m0 r place free la create true a b;
          lacking = λ e. absurd (at.ne_null (rw root (ap (λ (s : Slot). s.page) e)));
          found = inr (record {
            mid_valid = v;
            low_valid = v';
            page_is = rw root refl;
            index_is = refl;
            user = user;
          });
        },
      )

  first :
      (m : Memory) (r : Ptr) (place : Ptr → ℕ) (free : Ptr → Bool) (la : ℕ) (create ok : Bool)
      → pdx1 la < 511
      → (m1 : Memory)
      → Entered Sound m r place free (record { page = r; index = pdx1 la }) create ok m1
      → Ends (from_mid pmm r la create ok m1) λ (e, m'). Reached Sound m r place free la create e m'
  first m r place free la create false user m1 a = (
    (null_slot, m1),
    refl,
    record {
      place' = a.place';
      free' = a.free';
      memory = a.memory;
      extends = a.extends;
      same = λ s. a.same (ground (arith, s));
      lacking = λ e. (rw ((a.lacking refl).0) refl, (a.lacking refl).1);
      found = inl (refl, rw (a.ok_valid) refl);
    },
  )
  first m r place free la create true user m1 a =
      let at = a.memory.tree.mid (pdx1 la) (omega arith) a.ok_valid in
      let lt : ltb (pte2page (m1.words r (pdx1 la))) m1.npage ≡ true = ground (arith, at.below) in
      let ((ok0, m0), run, b) =
        enter_low pmm Sound g m1 r a.place' a.free' a.memory (pdx1 la) (pdx0 la) create
          (omega arith) (omega arith) a.ok_valid in
      rw (lt, run) (second m m1 r place free la create user a ok0 m0 b)

  -- Over a manager that hands out pages as the contract says, from a memory whose page tables
  -- below the last gigabyte are a tree of pages in use, for an address below the last gigabyte,
  -- get_pte ends, whether it may create tables or not, and the tables are a tree again. It answers
  -- the entry that the tables lead to, or NULL: NULL only if a table is missing and, in case it
  -- may create tables, no page is free any more. If no table is missing, or it may not create any,
  -- the memory stays as it is. No address below the last gigabyte is translated differently, and
  -- the pages that were in use keep their places in the tree and their counts.
  pub get_pte_lem :
      (m : Memory) (r : Ptr) (place : Ptr → ℕ) (free : Ptr → Bool) (la : ℕ) (create : Bool)
      → pdx1 la < 511
      → IsMemory Sound m r place free
      → Ends (get_pte pmm r la create m) λ (e, m'). Reached Sound m r place free la create e m'
  unfolding get_pte
  get_pte_lem m r place free la create user is =
      let ((ok, m1), run, a) =
        enter_mid pmm Sound g m r place free is (pdx1 la) create (omega arith) in
      rw run (first m r place free la create ok user m1 a)
