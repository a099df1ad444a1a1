-- ===== src/Libs/SkewHeap/Members.antt =====
-- Merging keeps the nodes of both trees, each once.
use os_lab.Base.{
  Ptr, ◌+◌, ◌≡◌, refl, true, false, ◌||◌, List, inl, inr, arith, has, has-append, Bool-cases,
}
use os_lab.Libs.SkewHeap.Defs.{Compare}
use os_lab.Libs.SkewHeap.Tree.{Tree, leaf, node, nodes, size, before, meld, meld_first, meld_second}

module _ (comp : Compare) where
  pub size-meld : (t u : Tree) → size (meld comp t u) ≡ size t + size u
  unfolding meld
  size-meld leaf u = omega arith
  size-meld (node l x r) leaf = omega arith
  size-meld (node l x r) (node l' y r') = elim (Bool-cases (before comp x y)) [
    | inl e ↦ rw (meld_first comp l r x l' r' y e) (omega (arith, size-meld r (node l' y r')))
    | inr e ↦ rw (meld_second comp l r x l' r' y e) (omega (arith, size-meld (node l x r) r'))
  ]

  pub has-meld :
      (q : Ptr) (t u : Tree) → has q (nodes (meld comp t u)) ≡ (has q (nodes t) || has q (nodes u))
  unfolding meld
  has-meld q leaf u = refl
  has-meld q (node l x r) leaf = ground arith
  has-meld q (node l x r) (node l' y r') = elim (Bool-cases (before comp x y)) [
    | inl e ↦ rw (meld_first comp l r x l' r' y e) (
        ground (
          arith,
          has-meld q r (node l' y r'),
          has-append q (nodes (meld comp r (node l' y r'))) (nodes l),
          has-append q (nodes l) (nodes r),
        ))
    | inr e ↦ rw (meld_second comp l r x l' r' y e) (
        ground (
          arith,
          has-meld q (node l x r) r',
          has-append q (nodes (meld comp (node l x r) r')) (nodes l'),
          has-append q (nodes l') (nodes r'),
        ))
  ]

-- Two lists share no address.
abbrev pub Apart : List Ptr → List Ptr → Type 0
Apart xs ys = (q : Ptr) → has q xs ≡ true → has q ys ≡ false

-- No address stands twice in the tree.
abbrev pub Proper : Tree → Type 0
Proper leaf = Unit {0}
Proper (node l x r) =
    (has x (nodes l) ≡ false)
    × (has x (nodes r) ≡ false)
    × Apart (nodes l) (nodes r)
    × Proper l
    × Proper r

pub Apart-symm : (xs ys : List Ptr) → Apart xs ys → Apart ys xs
Apart-symm xs ys d q h = ground (arith, d q)

module _ (comp : Compare) where
  pub Proper-meld :
      (t u : Tree) → Proper t → Proper u → Apart (nodes t) (nodes u) → Proper (meld comp t u)
  unfolding meld
  Proper-meld leaf u p q d = q
  Proper-meld (node l x r) leaf p q d = p
  Proper-meld (node l x r) (node l' y r') p q d = elim (Bool-cases (before comp x y)) [
    | inl e ↦ rw (meld_first comp l r x l' r' y e) (
      ground (arith, has-meld comp x r (node l' y r'), d x),
      p.0,
      (λ z i.
          ground (
            arith,
            has-meld comp z r (node l' y r'),
            d z,
            p.2 z,
            has-append z (nodes l) (nodes r),
          )),
      Proper-meld r (node l' y r') p.4 q
          (λ z i. ground (arith, d z, has-append z (nodes l) (nodes r))),
      p.3,
    )
    | inr e ↦ rw (meld_second comp l r x l' r' y e) (
      ground (arith, has-meld comp y (node l x r) r', d y),
      q.0,
      (λ z i.
          ground (
            arith,
            has-meld comp z (node l x r) r',
            d z,
            q.2 z,
            has-append z (nodes l') (nodes r'),
          )),
      Proper-meld (node l x r) r' p q.4
          (λ z i. ground (arith, d z, has-append z (nodes l') (nodes r'))),
      q.3,
    )
  ]
