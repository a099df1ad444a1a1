-- ===== src/Libs/SkewHeap/Order.antt =====
-- The order of a skew heap: no node goes before its ancestors.
use os_lab.Base.{Ptr, ◌≡◌, true, false, List, inl, inr, arith, has, has-append, Bool-cases}
use os_lab.Libs.SkewHeap.Defs.{Compare}
use os_lab.Libs.SkewHeap.Tree.{Tree, leaf, node, nodes, before, meld, meld_first, meld_second}
use os_lab.Libs.SkewHeap.Members.{has-meld}

-- What merging needs of a comparison, for the nodes of a list.
pub record IsOrder (comp : Compare) (among : List Ptr) : Type 0 where
  pub asym :
      (a b : Ptr)
      → has a among ≡ true
      → has b among ≡ true
      → before comp a b ≡ true
      → before comp b a ≡ false
  pub trans :
      (a b c : Ptr)
      → has a among ≡ true
      → has b among ≡ true
      → has c among ≡ true
      → before comp b a ≡ false
      → before comp c b ≡ false
      → before comp c a ≡ false

-- No node of the list goes before `x`.
abbrev pub Least : Compare → Ptr → List Ptr → Type 0
Least comp x ys = (q : Ptr) → has q ys ≡ true → before comp q x ≡ false

abbrev pub IsOrdered : Compare → Tree → Type 0
IsOrdered comp leaf = Unit {0}
IsOrdered comp (node l x r) =
    Least comp x (nodes l) × Least comp x (nodes r) × IsOrdered comp l × IsOrdered comp r

abbrev pub Within : List Ptr → List Ptr → Type 0
Within xs ys = (q : Ptr) → has q xs ≡ true → has q ys ≡ true

module _ {comp : Compare} {among : List Ptr} (o : IsOrder comp among) where
  pub IsOrdered-meld :
      (t u : Tree)
      → IsOrdered comp t
      → IsOrdered comp u
      → Within (nodes t) among
      → Within (nodes u) among
      → IsOrdered comp (meld comp t u)
  unfolding meld
  IsOrdered-meld leaf u ot ou wt wu = ou
  IsOrdered-meld (node l x r) leaf ot ou wt wu = ot
  IsOrdered-meld (node l x r) (node l' y r') ot ou wt wu = elim (Bool-cases (before comp x y)) [
    | inl e ↦ rw (meld_first comp l r x l' r' y e) (
      (λ q i. ground (
        arith,
        has-meld comp q r (node l' y r'),
        ot.1 q,
        ou.0 q,
        ou.1 q,
        has-append q (nodes l') (nodes r'),
        has-append q (nodes l) (nodes r),
        o.asym x y,
        wt x,
        wu y,
        wu q,
        o.trans x y q,
      )),
      ot.0,
      IsOrdered-meld r (node l' y r') ot.3 ou
          (λ q i. wt q (ground (arith, has-append q (nodes l) (nodes r)))) wu,
      ot.2,
    )
    | inr e ↦ rw (meld_second comp l r x l' r' y e) (
      (λ q i. ground (
        arith,
        has-meld comp q (node l x r) r',
        ot.0 q,
        ot.1 q,
        ou.1 q,
        has-append q (nodes l') (nodes r'),
        has-append q (nodes l) (nodes r),
        wt x,
        wu y,
        wt q,
        o.trans y x q,
      )),
      ou.0,
      IsOrdered-meld (node l x r) r' ot ou.3 wt
          (λ q i. wu q (ground (arith, has-append q (nodes l') (nodes r')))),
      ou.2,
    )
  ]
