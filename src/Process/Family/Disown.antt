-- ===== src/Process/Family/Disown.antt =====
-- `remove_links` takes a process out of its parent's children, wherever it stands among them.
use os_lab.Base.{
  Ptr, null, ◌≡◌, ◌≢◌, true, false, ◌&&◌, not, List, [], ◌∷◌, ◌++◌, has, has-append, has-last_or,
  Distinct, Distinct-remove, arith, head_or, last_or, ◌==◌, if◌then◌else◌, ◌∙◌, sym, subst,
}
use os_lab.Sched.State.{Proc}
use os_lab.Process.Table.{disown}
use os_lab.Process.Family.{Brood, Children, Brood-frame, Brood-first, head_has}

module _ (f : Ptr → Proc) (e : Ptr) where
  disown_parent : (q : Ptr) → (disown e f q).parent ≡ (f q).parent
  unfolding disown
  disown_parent q = ground arith

  disown_yptr :
      (q : Ptr)
      → (disown e f q).yptr
        ≡ (if not ((f e).optr == null) && (q == (f e).optr) then (f e).yptr else (f q).yptr)
  unfolding disown
  disown_yptr q = ground arith

  disown_optr :
      (q : Ptr)
      → (disown e f q).optr
        ≡ (if not ((f e).yptr == null) && (q == (f e).yptr) then (f e).optr else (f q).optr)
  unfolding disown
  disown_optr q = ground arith

  disown_cptr :
      (q : Ptr)
      → (disown e f q).cptr
        ≡ (if ((f e).yptr == null) && (q == (f e).parent) then (f e).optr else (f q).cptr)
  unfolding disown
  disown_cptr q = ground arith

Brood-at :
    (f : Ptr → Proc) (y : Ptr) (xs : List Ptr) (e : Ptr) (ys : List Ptr) (c : Ptr)
    → Brood f y (xs ++ e ∷ ys) c
    → ((f e).yptr ≡ last_or y xs) × ((f e).optr ≡ head_or null ys) × Brood f e ys (f e).optr
Brood-at f y [] e ys c b = (b.2, Brood-first f e ys (f e).optr b.3, b.3)
Brood-at f y (x ∷ xs) e ys c b = Brood-at f x xs e ys (f x).optr b.3

members_ne_null :
    (f : Ptr → Proc) (y : Ptr) (xs : List Ptr) (c q : Ptr)
    → Brood f y xs c
    → has q xs ≡ true
    → q ≢ null
members_ne_null f y [] c q b i = ground arith
members_ne_null f y (x ∷ xs) c q b i = ground (arith, b.1, members_ne_null f x xs (f x).optr q b.3)

-- Where the sequence begins once `e` has left it.
abbrev start : List Ptr → (next c : Ptr) → Ptr
start [] next c = next
start (x ∷ xs) next c = c

without_first :
    (f : Ptr → Proc) (y e : Ptr) (ys : List Ptr)
    → Brood f e ys (f e).optr
    → (f e).yptr ≡ y
    → Distinct ys
    → ((q : Ptr) → has q ys ≡ true → q ≢ y)
    → Brood (disown e f) y ys (f e).optr
without_first f y e [] b is d ne = b
without_first f y e (x ∷ xs) b is d ne = (
  b.0,
  b.1,
  ground (arith, disown_yptr f e x),
  subst (λ z. Brood (disown e f) x xs z) (ground (arith, disown_optr f e x, ne x))
      (Brood-frame f (disown e f) x xs (f x).optr b.3 (λ q i. ground (arith, disown_yptr f e q))
        (λ q i. ground (arith, disown_optr f e q, ne q))),
)

-- What comes after `x` once `e` has left.
after_x :
    (x : Ptr) (xs : List Ptr) (younger next old : Ptr)
    → x ≢ null
    → has x xs ≡ false
    → younger ≡ last_or x xs
    → (if not (younger == null) && (x == younger) then next else old) ≡ start xs next old
after_x x [] younger next old ne out is = ground arith
after_x x (z ∷ zs) younger next old ne out is = ground (arith, has-last_or z zs)

without :
    (f : Ptr → Proc) (y : Ptr) (xs : List Ptr) (e : Ptr) (ys : List Ptr) (c : Ptr)
    → Brood f y (xs ++ e ∷ ys) c
    → Distinct (xs ++ e ∷ ys)
    → ((q : Ptr) → has q (xs ++ e ∷ ys) ≡ true → q ≢ y)
    → Brood (disown e f) y (xs ++ ys) (start xs (f e).optr c)
without f y [] e ys c b d ne = without_first f y e ys b.3 b.2 d.1 (λ q i. ne q (ground arith))
without f y (x ∷ xs) e ys c b d ne =
    let at = Brood-at f x xs e ys (f x).optr b.3 in
    (
      b.0,
      b.1,
      ground (arith, disown_yptr f e x, at.1, head_has ys, has-append x xs (e ∷ ys)),
      subst (λ z. Brood (disown e f) x (xs ++ ys) z)
          (sym (
            disown_optr f e x
            ∙ after_x x xs (f e).yptr (f e).optr (f x).optr b.1
                (ground (arith, has-append x xs (e ∷ ys))) at.0))
          (without f x xs e ys (f x).optr b.3 d.1 (λ q i h. ground (arith, i, d.0))),
    )

first_lem :
    (f : Ptr → Proc) (p : Ptr) (xs : List Ptr) (e : Ptr) (ys : List Ptr)
    → Children f p (xs ++ e ∷ ys)
    → (if ((f e).yptr == null) && (p == (f e).parent) then (f e).optr else (f p).cptr)
      ≡ start xs (f e).optr (f p).cptr
first_lem f p [] e ys c =
    ground (arith, (Brood-at f null [] e ys (f p).cptr c.brood).0, c.parent_is e)
first_lem f p (x ∷ xs) e ys c = ground (
  arith,
  (Brood-at f null (x ∷ xs) e ys (f p).cptr c.brood).0,
  has-last_or x xs,
  has-append (last_or x xs) (x ∷ xs) (e ∷ ys),
  members_ne_null f null (x ∷ xs ++ e ∷ ys) (f p).cptr (last_or x xs) c.brood,
)

-- `remove_links` takes a child out of its parent's children and keeps the order of the others.
pub disown-Children :
    (f : Ptr → Proc) (p : Ptr) (xs : List Ptr) (e : Ptr) (ys : List Ptr)
    → Children f p (xs ++ e ∷ ys)
    → Children (disown e f) p (xs ++ ys)
disown-Children f p xs e ys c = record {
  brood =
      subst (λ z. Brood (disown e f) null (xs ++ ys) z)
        (sym (disown_cptr f e p ∙ first_lem f p xs e ys c))
        (without f null xs e ys (f p).cptr c.brood c.distinct
          (λ q. members_ne_null f null (xs ++ e ∷ ys) (f p).cptr q c.brood));
  distinct = (Distinct-remove xs e ys c.distinct).0;
  parent_is = λ q i.
      ground
        (arith, disown_parent f e q, c.parent_is q, has-append q xs (e ∷ ys), has-append q xs ys);
}

-- The children of the other processes stay as they are.
pub disown-Children_other :
    (f : Ptr → Proc) (p : Ptr) (xs : List Ptr) (e : Ptr) (ys : List Ptr) (p' : Ptr) (zs : List Ptr)
    → Children f p (xs ++ e ∷ ys)
    → Children f p' zs
    → p' ≢ p
    → Children (disown e f) p' zs
disown-Children_other f p xs e ys p' zs c c' ne = record {
  brood =
      subst (λ z. Brood (disown e f) null zs z)
        (sym (disown_cptr f e p' ∙ ground (arith, c.parent_is e, has-append e xs (e ∷ ys))))
        (Brood-frame f (disown e f) null zs (f p').cptr c'.brood
          (λ q i. ground (
            arith,
            disown_yptr f e q,
            at.1,
            head_has ys,
            has-append (head_or null ys) xs (e ∷ ys),
            c.parent_is q,
            c'.parent_is q,
          ))
          (λ q i. ground (
            arith,
            disown_optr f e q,
            at.0,
            has-last_or null xs,
            has-append (last_or null xs) xs (e ∷ ys),
            c.parent_is q,
            c'.parent_is q,
          )));
  distinct = c'.distinct;
  parent_is = λ q i. ground (arith, disown_parent f e q, c'.parent_is q);
}
  where
    at : ((f e).yptr ≡ last_or null xs) × ((f e).optr ≡ head_or null ys) × Brood f e ys (f e).optr
    at = Brood-at f null xs e ys (f p).cptr c.brood
