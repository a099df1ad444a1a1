-- ===== src/Libs/SkewHeap/Link.antt =====
-- One step of merging, on the way back: a node gets a new left subtree, and its old left one
-- becomes its right one.
use os_lab.Base.{refl, Ptr, null, ◌≡◌, ◌≢◌, false, arith, has, update_self}
use os_lab.Libs.SkewHeap.Defs.{Nodes, link}
use os_lab.Libs.SkewHeap.Tree.{Tree, leaf, node, nodes}
use os_lab.Libs.SkewHeap.Members.{Apart, Proper}
use os_lab.Libs.SkewHeap.Shape.{
  Shape, Parents, Kids, SameDown, SameNode, Shape-frame, Parents-frame,
}

module _ (g : Nodes) (x c y : Ptr) where
  pub link-SameDown : (q : Ptr) → q ≢ x → SameDown g (link x c y g) q
  unfolding link
  link-SameDown q ne = ground arith

  pub link-parent : (q : Ptr) → q ≢ c → (link x c y g).parent q ≡ g.parent q
  unfolding link
  link-parent q ne = ground arith

  -- The new left subtree gets its parent.
  link-Parents_new : (v : Tree) → Shape g c v → Kids g v → Proper v → Parents (link x c y g) x v
  unfolding link
  link-Parents_new leaf s k p = tt
  link-Parents_new (node a z b) s k p = (
    ground arith,
    Parents-frame g (link x c y g) z a k.0 (λ q i. link-parent q (ground arith)),
    Parents-frame g (link x c y g) z b k.1 (λ q i. link-parent q (ground arith)),
  )

  link-Parents_old :
      (v l : Tree)
      → Shape g c v
      → Parents g x l
      → Apart (nodes v) (nodes l)
      → Parents (link x c y g) x l
  unfolding link
  link-Parents_old leaf l e pl d = Parents-frame g (link x c y g) x l pl (λ q i. ground arith)
  link-Parents_old (node a z b) l e pl d =
      Parents-frame g (link x c y g) x l pl (λ q i. link-parent q (ground (arith, d z)))

  pub link-node :
      (v l : Tree)
      → x ≢ null
      → Shape g c v
      → Kids g v
      → Proper v
      → Shape g y l
      → Parents g x l
      → has x (nodes v) ≡ false
      → has x (nodes l) ≡ false
      → Apart (nodes v) (nodes l)
      → Shape (link x c y g) x (node v x l) × Kids (link x c y g) (node v x l)
  unfolding link
  link-node v l ne s k p sl pl ov ol d = (
    (
      refl,
      ne,
      rw (update_self g.left x c) (Shape-frame g _ c v s (λ q i. link-SameDown q (ground arith))),
      rw (update_self g.right x y) (Shape-frame g _ y l sl (λ q i. link-SameDown q (ground arith))),
    ),
    (link-Parents_new v s k p, link-Parents_old v l s pl d),
  )

-- The step leaves every node outside the two subtrees alone.
pub link-SameNode :
    (g : Nodes) (x c y : Ptr) (v : Tree) (q : Ptr)
    → Shape g c v
    → q ≢ x
    → has q (nodes v) ≡ false
    → SameNode g (link x c y g) q
unfolding link
link-SameNode g x c y leaf q s ne o = ground arith
link-SameNode g x c y (node a z b) q s ne o = ground arith

pub link-parent_out :
    (g : Nodes) (x c y : Ptr) (v : Tree) (q : Ptr)
    → Shape g c v
    → has q (nodes v) ≡ false
    → (link x c y g).parent q ≡ g.parent q
unfolding link
link-parent_out g x c y leaf q s o = ground arith
link-parent_out g x c y (node a z b) q s o = ground arith
