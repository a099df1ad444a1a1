-- ===== src/Process/Family/Adopt.antt =====
-- `set_links` makes a process the youngest child of its parent.
use os_lab.Base.{
  sym, subst, ==_ne, ==_refl, Ptr, null, ◌≡◌, ◌≢◌, false, List, [], ◌∷◌, has, Distinct, arith,
  head_or, ◌==◌, ◌&&◌, not, ap, ◌∙◌, if◌then◌else◌,
}
use os_lab.Sched.State.{Proc}
use os_lab.Process.Table.{adopt}
use os_lab.Process.Family.{Brood, Children, Brood-frame, head_has, Brood-first}

module _ (f : Ptr → Proc) (e : Ptr) where
  adopt_parent : (q : Ptr) → (adopt e f q).parent ≡ (f q).parent
  unfolding adopt
  adopt_parent q = ground arith

  adopt_cptr : (q : Ptr) → (adopt e f q).cptr ≡ (if q == (f e).parent then e else (f q).cptr)
  unfolding adopt
  adopt_cptr q = ground arith

  adopt_optr :
      (q : Ptr) → (adopt e f q).optr ≡ (if q == e then (f (f e).parent).cptr else (f q).optr)
  unfolding adopt
  adopt_optr q = ground arith

  adopt_yptr :
      (q : Ptr)
      → (adopt e f q).yptr ≡ (
          if not ((f (f e).parent).cptr == null) && (q == (f (f e).parent).cptr)
          then e
          else if q == e
          then null
          else (f q).yptr)
  unfolding adopt
  adopt_yptr q = ground arith

module _ {f : Ptr → Proc} {p : Ptr} {xs : List Ptr} (c : Children f p xs) (e : Ptr)
    (born : (f e).parent ≡ p) (new : has e xs ≡ false) where
  older : (f (f e).parent).cptr ≡ head_or null xs
  older = ap (λ q. (f q).cptr) born ∙ Brood-first f null xs (f p).cptr c.brood

below :
    (f : Ptr → Proc) (e c : Ptr) (xs : List Ptr)
    → (f (f e).parent).cptr ≡ c
    → Brood f null xs c
    → Distinct xs
    → has e xs ≡ false
    → Brood (adopt e f) e xs c
below f e c [] o b d new = b
below f e c (x ∷ xs) o b d new = (
  b.0,
  b.1,
  ground (arith, adopt_yptr f e x),
  rw (adopt_optr f e x) (
      subst (λ z. Brood (adopt e f) x xs z) (ground arith)
        (Brood-frame f (adopt e f) x xs (f x).optr b.3 (λ q i. ground (arith, adopt_yptr f e q))
          (λ q i. ground (arith, adopt_optr f e q)))),
)

-- `set_links` makes a process that is no child yet the youngest child of its parent.
pub adopt-Children :
    (f : Ptr → Proc) (p : Ptr) (xs : List Ptr) (e : Ptr)
    → Children f p xs
    → (f e).parent ≡ p
    → has e xs ≡ false
    → e ≢ null
    → Children (adopt e f) p (e ∷ xs)
adopt-Children f p xs e c born new ne = record {
  brood = (
    ground (arith, adopt_cptr f e p),
    ne,
    ground (arith, adopt_yptr f e e, older c e born new),
    rw (adopt_optr f e e, ==_refl e)
        (subst (λ z. Brood (adopt e f) e xs z) (sym (ap (λ q. (f q).cptr) born))
          (below f e (f p).cptr xs (ap (λ q. (f q).cptr) born) c.brood c.distinct new)),
  );
  distinct = (new, c.distinct);
  parent_is = λ q i. ground (arith, adopt_parent f e q, c.parent_is q);
}

-- The children of the other processes stay as they are.
pub adopt-Children_other :
    (f : Ptr → Proc) (p : Ptr) (xs : List Ptr) (e p' : Ptr) (ys : List Ptr)
    → Children f p xs
    → (f e).parent ≡ p
    → has e xs ≡ false
    → Children f p' ys
    → p' ≢ p
    → has e ys ≡ false
    → Children (adopt e f) p' ys
adopt-Children_other f p xs e p' ys c born new c' ne out = record {
  brood =
      rw (adopt_cptr f e p', born, ==_ne p' p ne)
        (Brood-frame f (adopt e f) null ys (f p').cptr c'.brood
          (λ q i. ground (
            arith,
            adopt_yptr f e q,
            older c e born new,
            head_has xs,
            c.parent_is q,
            c'.parent_is q,
          ))
          (λ q i. ground (arith, adopt_optr f e q)));
  distinct = c'.distinct;
  parent_is = λ q i. ground (arith, adopt_parent f e q, c'.parent_is q);
}
