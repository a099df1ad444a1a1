-- ===== src/Libs/SkewHeap/Shape.antt =====
-- A store of nodes that stands for a tree: its left and right pointers give the shape, and each
-- node but the root has its parent's address.
use os_lab.Base.{inl, refl, Ptr, null, ◌≡◌, ◌≢◌, ◌⊎◌, true, arith, has, has-append}
use os_lab.Libs.SkewHeap.Defs.{Nodes}
use os_lab.Libs.SkewHeap.Tree.{Tree, leaf, node, nodes}

abbrev pub Shape : Nodes → Ptr → Tree → Type 0
Shape h p leaf = p ≡ null
Shape h p (node l x r) = (p ≡ x) × (x ≢ null) × Shape h (h.left x) l × Shape h (h.right x) r

-- The root's parent is `p`.
abbrev pub Parents : Nodes → Ptr → Tree → Type 0
Parents h p leaf = Unit {0}
Parents h p (node l x r) = (h.parent x ≡ p) × Parents h x l × Parents h x r

-- All but the root have their parent.
abbrev pub Kids : Nodes → Tree → Type 0
Kids h leaf = Unit {0}
Kids h (node l x r) = Parents h x l × Parents h x r

-- The pointers down from a node, and all its pointers, stand as they stood.
pub record SameDown (h g : Nodes) (q : Ptr) : Type 0 where
  pub left_same : g.left q ≡ h.left q
  pub right_same : g.right q ≡ h.right q

pub record SameNode (h g : Nodes) (q : Ptr) : Type 0 where
  pub down : SameDown h g q
  pub parent_same : g.parent q ≡ h.parent q

module _ (h g : Nodes) where
  pub Shape-frame :
      (p : Ptr) (t : Tree)
      → Shape h p t
      → ((q : Ptr) → has q (nodes t) ≡ true → SameDown h g q)
      → Shape g p t
  Shape-frame p leaf s f = s
  Shape-frame p (node l x r) s f =
      let same = f x (ground arith) in
      (
        s.0,
        s.1,
        rw same.left_same (
            Shape-frame (h.left x) l s.2
              (λ q i. f q (ground (arith, has-append q (nodes l) (nodes r))))),
        rw same.right_same (
            Shape-frame (h.right x) r s.3
              (λ q i. f q (ground (arith, has-append q (nodes l) (nodes r))))),
      )

  pub Parents-frame :
      (p : Ptr) (t : Tree)
      → Parents h p t
      → ((q : Ptr) → has q (nodes t) ≡ true → g.parent q ≡ h.parent q)
      → Parents g p t
  Parents-frame p leaf s f = tt
  Parents-frame p (node l x r) s f = (
    ground (arith, f x),
    Parents-frame x l s.1 (λ q i. f q (ground (arith, has-append q (nodes l) (nodes r)))),
    Parents-frame x r s.2 (λ q i. f q (ground (arith, has-append q (nodes l) (nodes r)))),
  )

  pub Kids-frame :
      (t : Tree)
      → Kids h t
      → ((q : Ptr) → has q (nodes t) ≡ true → g.parent q ≡ h.parent q)
      → Kids g t
  Kids-frame leaf s f = tt
  Kids-frame (node l x r) s f = (
    Parents-frame x l s.0 (λ q i. f q (ground (arith, has-append q (nodes l) (nodes r)))),
    Parents-frame x r s.1 (λ q i. f q (ground (arith, has-append q (nodes l) (nodes r)))),
  )

pub Kids-Parents : (h : Nodes) (p : Ptr) (t : Tree) → Parents h p t → Kids h t
Kids-Parents h p leaf s = tt
Kids-Parents h p (node l x r) s = (s.1, s.2)

-- The root of a tree is its first node.
pub Shape-root :
    (h : Nodes) (p : Ptr) (t : Tree)
    → Shape h p t
    → ((p ≡ null) × (t ≡ leaf)) ⊎ ((p ≢ null) × (has p (nodes t) ≡ true))
Shape-root h p leaf s = inl (s, refl)
Shape-root h p (node l x r) s = ground arith
