-- ===== src/Mm/Tables/Enter.antt =====
-- One level of `get_pte`.
use os_lab.Base.{
  Ptr, null, ℕ, not, ◌||◌, ◌<◌, ◌≡◌, ◌≢◌, ==_ne, Bool, true, false, Bool-cases, inl, inr,
  if◌then◌else◌, update, refl, arith, ap, ◌∙◌, Ends, some, ltb,
}
use os_lab.Mm.FirstFit.Defs.{FreeArea}
use os_lab.Mm.Tables.Defs.{
  PmmManager, Memory, Slot, word_at, is_valid, pte2page, page_ref, alloc_page, grow, enter,
}
use os_lab.Mm.Tables.Tree.{leaf, mid_place, low_place, IsTree, without, is_valid-pte_create}
use os_lab.Mm.Tables.Grow.{grown, grown_entry, Grows, mid-Grows, low-Grows}
use os_lab.Mm.Tables.Manager.{with_ref, Gives}

pub record IsMemory (Sound : FreeArea → (Ptr → Bool) → Type 0) (m : Memory) (r : Ptr)
    (place : Ptr → ℕ) (free : Ptr → Bool) : Type 0 where
  pub sound : Sound m.area free
  pub tree : IsTree m.words m.npage r place free

-- From m to m' no address is translated differently, and the pages that were in use keep their
-- places and their counts.
pub record Extends (m m' : Memory) (r : Ptr) (place place' : Ptr → ℕ) (free free' : Ptr → Bool)
    : Type 0 where
  pub leaves :
      (i j k : ℕ) → i < 511 → j < 512 → k < 512 → leaf m'.words r i j k ≡ leaf m.words r i j k
  pub roots : (i : ℕ) → is_valid (m.words r i) ≡ true → m'.words r i ≡ m.words r i
  pub same_npage : m'.npage ≡ m.npage
  pub less_free : (q : Ptr) → free q ≡ false → free' q ≡ false
  pub places : (q : Ptr) → free q ≡ false → place' q ≡ place q
  pub refs : (q : Ptr) → free q ≡ false → page_ref q m' ≡ page_ref q m

pub record Entered (Sound : FreeArea → (Ptr → Bool) → Type 0) (m : Memory) (r : Ptr)
    (place : Ptr → ℕ) (free : Ptr → Bool) (e : Slot) (create ok : Bool) (m' : Memory) : Type 0 where
  pub place' : Ptr → ℕ
  pub free' : Ptr → Bool
  pub memory : IsMemory Sound m' r place' free'
  pub extends : Extends m m' r place place' free free'
  pub ok_valid : is_valid (word_at m'.words e) ≡ ok
  pub same :
      (is_valid (word_at m.words e) || not create) ≡ true
      → (m' ≡ m) × (place' ≡ place) × (free' ≡ free)
  pub lacking :
      ok ≡ false
      → (is_valid (word_at m.words e) ≡ false) × (create ≡ true → (q : Ptr) → free' q ≡ false)

Extends-same :
    (m : Memory) (r : Ptr) (place : Ptr → ℕ) (free : Ptr → Bool)
    → Extends m m r place place free free
Extends-same m r place free = record {
  leaves = λ i j k li lj lk. refl;
  roots = λ i v. refl;
  same_npage = refl;
  less_free = λ q u. u;
  places = λ q u. refl;
  refs = λ q u. refl;
}

pub Extends-trans :
    (m m1 m2 : Memory) (r : Ptr) (place place1 place2 : Ptr → ℕ) (free free1 free2 : Ptr → Bool)
    → Extends m m1 r place place1 free free1
    → Extends m1 m2 r place1 place2 free1 free2
    → Extends m m2 r place place2 free free2
Extends-trans m m1 m2 r place place1 place2 free free1 free2 a b = record {
  leaves = λ i j k li lj lk. b.leaves i j k li lj lk ∙ a.leaves i j k li lj lk;
  roots = λ i v. b.roots i (rw (a.roots i v) v) ∙ a.roots i v;
  same_npage = b.same_npage ∙ a.same_npage;
  less_free = λ q u. b.less_free q (a.less_free q u);
  places = λ q u. b.places q (a.less_free q u) ∙ a.places q u;
  refs = λ q u. b.refs q (a.less_free q u) ∙ a.refs q u;
}

module _ (pmm : PmmManager) (Sound : FreeArea → (Ptr → Bool) → Type 0) (g : Gives pmm Sound)
    (m : Memory) (r : Ptr) (place : Ptr → ℕ) (free : Ptr → Bool)
    (is : IsMemory Sound m r place free) where
  entry_valid :
      (e : Slot) (p : Ptr)
      → free e.page ≡ false
      → free p ≡ true
      → p < m.npage
      → is_valid (word_at (grown m.words e p) e) ≡ true
  entry_valid e p u f lt =
      rw (grown_entry m.words e p (λ q. absurd (ground (arith, u, f, ap free q))))
        (is_valid-pte_create p 17 (omega (arith, is.tree.few)) (omega arith))

  grow_lem :
      (e : Slot) (c : ℕ)
      → free e.page ≡ false
      → is_valid (word_at m.words e) ≡ false
      → ((p : Ptr)
          → free p ≡ true
          → p ≢ null
          → Grows m.words (grown m.words e p) m.npage r (update place p c) (without free p))
      → Ends (grow pmm e m) λ (ok, m'). Entered Sound m r place free e true ok m'
  unfolding grow alloc_page
  grow_lem e c u missing step =
      let ((p, a'), run, out) = g.gives m.area free is.sound in
      elim out [
        | inl (none_left, same, none_free) ↦
            rw (run, none_left)
              (
                (false, record m { area = a' }),
                refl,
                record {
                  place' = place;
                  free' = free;
                  memory = record { sound = rw same is.sound; tree = is.tree };
                  extends = record {
                    leaves = λ i j k li lj lk. refl;
                    roots = λ i v. refl;
                    same_npage = refl;
                    less_free = λ q u'. u';
                    places = λ q u'. refl;
                    refs = λ q u'. ap (λ a. (a.pages q).ref) same;
                  };
                  ok_valid = missing;
                  same = λ s. absurd (ground (arith, missing));
                  lacking = λ no. (missing, λ on. none_free);
                },
              )
        | inr given ↦
            let lt : ltb p m.npage ≡ true = ground (arith, is.tree.free_below p given.was_free) in
            let s = step p given.was_free given.ne_null in
            rw (run, ==_ne p null given.ne_null, lt)
              (
                (true, record m { area = with_ref p 1 a'; words = grown m.words e p }),
                refl,
                record {
                  place' = update place p c;
                  free' = without free p;
                  memory = record {
                    sound = g.keeps_ref a' (without free p) p 1 given.sound;
                    tree = s.tree;
                  };
                  extends = record {
                    leaves = s.leaves;
                    roots = s.roots;
                    same_npage = refl;
                    less_free = λ q u'. ground (arith, u');
                    places = λ q u'. ground (arith, u', given.was_free);
                    refs = λ q u'. ground (arith, u', given.was_free, given.refs q);
                  };
                  ok_valid = entry_valid e p u given.was_free (is.tree.free_below p given.was_free);
                  same = λ s. absurd (ground (arith, missing));
                  lacking = λ no. absurd (ground arith);
                },
              )
      ]

  stays :
      (e : Slot) (create ok : Bool)
      → is_valid (word_at m.words e) ≡ ok
      → (ok ≡ false → create ≡ false)
      → Entered Sound m r place free e create ok m
  stays e create ok v off = record {
    place' = place;
    free' = free;
    memory = is;
    extends = Extends-same m r place free;
    ok_valid = v;
    same = λ s. (refl, refl, refl);
    lacking = λ no. (v ∙ no, λ on. absurd (ground (arith, off no)));
  }

  enter_lem :
      (e : Slot) (c : ℕ) (create : Bool)
      → free e.page ≡ false
      → (is_valid (word_at m.words e) ≡ false
          → (p : Ptr) → free p ≡ true
          → p ≢ null
          → Grows m.words (grown m.words e p) m.npage r (update place p c) (without free p))
      → Ends (enter pmm e create m) λ (ok, m'). Entered Sound m r place free e create ok m'
  unfolding enter
  enter_lem e c create u step = elim (Bool-cases (is_valid (word_at m.words e))) [
    | inl there ↦
        rw there ((true, m), refl, stays e create true there (λ no. absurd (ground arith)))
    | inr missing ↦
        rw missing
          (elim create
            as (λ b.
              Ends (if b then grow pmm e m else some (false, m))
                λ (ok, m'). Entered Sound m r place free e b ok m') [
                  | true ↦ grow_lem e c u missing (step missing)
                  | false ↦ ((false, m), refl, stays e false false missing (λ no. refl))
                ])
  ]

  -- The entry for index i of the root.
  pub enter_mid :
      (i : ℕ) (create : Bool)
      → i < 511
      → Ends
          (enter pmm (record { page = r; index = i }) create m)
          λ (ok, m'). Entered Sound m r place free (record { page = r; index = i }) create ok m'
  enter_mid i create li =
      enter_lem (record { page = r; index = i }) (mid_place i) create is.tree.root.used
        (λ missing p f ne. mid-Grows m.words m.npage r place free is.tree p f ne i li missing)

  -- The entry for index j of the table below it.
  pub enter_low :
      (i j : ℕ) (create : Bool)
      → i < 511
      → j < 512
      → is_valid (m.words r i) ≡ true
      → Ends (enter pmm (record { page = pte2page (m.words r i); index = j }) create m) λ (ok, m').
        Entered Sound m r place free
          (record { page = pte2page (m.words r i); index = j })
          create
          ok
          m'
  enter_low i j create li lj v =
      enter_lem (record { page = pte2page (m.words r i); index = j }) (low_place i j) create
        (is.tree.mid i li v).used
        (λ missing p f ne.
          low-Grows m.words m.npage r place free is.tree p f ne i li v j lj missing)
