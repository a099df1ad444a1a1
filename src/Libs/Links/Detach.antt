-- ===== src/Libs/Links/Detach.antt =====
-- Nodes outside a circular list: what the operations leave alone, and a node that is on its own.
use os_lab.Base.{
  Ptr, ◌≡◌, ◌≢◌, refl, true, false, List, [], ◌∷◌, ◌++◌, arith, has, has-append, has-last_or,
  Distinct-right, Distinct-remove,
}
use os_lab.Libs.Links.{
  Links, list_init, list_add_between, list_del_between, list_add_before, list_del, list_del_init,
  list_empty,
}
use os_lab.Libs.Links.Ring.{Ring, prev-last_or, Chain-frame}
use os_lab.Libs.Links.Edit.{list_del-Ring, prev_of-Ring, next_of-Ring}

-- A node in no list points to itself.
pub record Detached (l : Links) (e : Ptr) : Type 0 where
  pub next_self : l.next e ≡ e
  pub prev_self : l.prev e ≡ e

-- The two pointers of a node stand as they stood.
pub record SameAt (l m : Links) (q : Ptr) : Type 0 where
  pub next_same : m.next q ≡ l.next q
  pub prev_same : m.prev q ≡ l.prev q

pub SameAt-Detached : {l m : Links} {q : Ptr} → SameAt l m q → Detached l q → Detached m q
SameAt-Detached s d = ground arith

pub list_init-Ring : (l : Links) (h : Ptr) → Ring (list_init h l) h []
unfolding list_init
list_init-Ring l h = record { chain = (ground arith, ground arith); distinct = (refl, tt) }

pub list_init-Detached : (l : Links) (e : Ptr) → Detached (list_init e l) e
unfolding list_init
list_init-Detached l e = ground arith

pub list_init-SameAt : (l : Links) (e q : Ptr) → q ≢ e → SameAt l (list_init e l) q
unfolding list_init
list_init-SameAt l e q ne = ground arith

-- A node on its own is an empty list.
pub list_empty-Detached : (l : Links) (e : Ptr) → Detached l e → list_empty l e ≡ true
unfolding list_empty
list_empty-Detached l e d = ground arith

module _ {l : Links} {h : Ptr} where
  -- A node in a list is not its own successor.
  pub list_empty-false :
      (xs : List Ptr) (e : Ptr) (ys : List Ptr) → Ring l h (xs ++ e ∷ ys) → list_empty l e ≡ false
  unfolding list_empty
  list_empty-false xs e [] r =
      ground (arith, next_of-Ring xs e [] r, has-append h xs (e ∷ []), r.distinct)
  list_empty-false xs e (y ∷ ys) r =
      ground (arith, next_of-Ring xs e (y ∷ ys) r, (Distinct-right xs (e ∷ y ∷ ys) r.distinct.1).0)

  pub list_add_before-SameAt :
      (xs : List Ptr) (e q : Ptr)
      → Ring l h xs
      → has q (h ∷ xs) ≡ false
      → q ≢ e
      → SameAt l (list_add_before h e l) q
  unfolding list_add_before list_add_between
  list_add_before-SameAt xs e q r o ne =
      ground (arith, prev-last_or l h xs h r.chain, has-last_or h xs)

  pub list_del-SameAt :
      (xs : List Ptr) (e : Ptr) (ys : List Ptr) (q : Ptr)
      → Ring l h (xs ++ e ∷ ys)
      → has q (h ∷ xs ++ e ∷ ys) ≡ false
      → SameAt l (list_del e l) q
  unfolding list_del list_del_between
  list_del-SameAt xs e [] q r o = ground (
    arith,
    prev_of-Ring xs e [] r,
    next_of-Ring xs e [] r,
    has-last_or h xs,
    has-append q xs (e ∷ []),
  )
  list_del-SameAt xs e (y ∷ ys) q r o = ground (
    arith,
    prev_of-Ring xs e (y ∷ ys) r,
    next_of-Ring xs e (y ∷ ys) r,
    has-last_or h xs,
    has-append q xs (e ∷ y ∷ ys),
  )

  -- On a node in a circular list, list_del_init leaves the list without that node, its order kept,
  -- and the node on its own.
  pub list_del_init-Ring :
      (xs : List Ptr) (e : Ptr) (ys : List Ptr)
      → Ring l h (xs ++ e ∷ ys)
      → Ring (list_del_init e l) h (xs ++ ys) × Detached (list_del_init e l) e
  unfolding list_del_init
  list_del_init-Ring xs e ys r = (
    record {
      chain =
          Chain-frame _ _ h (xs ++ ys) h s.chain
            (λ q i. (list_init-SameAt _ e q (ground (arith, out))).next_same)
            (λ q i. (list_init-SameAt _ e q (ground (arith, out))).prev_same);
      distinct = s.distinct;
    },
    list_init-Detached _ e,
  )
    where
      s : Ring (list_del e l) h (xs ++ ys)
      s = list_del-Ring xs e ys r

      out : has e (h ∷ xs ++ ys) ≡ false
      out = (Distinct-remove (h ∷ xs) e ys r.distinct).1

  pub list_del_init-SameAt :
      (xs : List Ptr) (e : Ptr) (ys : List Ptr) (q : Ptr)
      → Ring l h (xs ++ e ∷ ys)
      → has q (h ∷ xs ++ e ∷ ys) ≡ false
      → SameAt l (list_del_init e l) q
  unfolding list_del_init
  list_del_init-SameAt xs e ys q r o = ground (
    arith,
    list_del-SameAt xs e ys q r o,
    list_init-SameAt (list_del e l) e q,
    has-append q xs (e ∷ ys),
  )
