-- ===== src/Libs/SkewHeap/Remove.antt =====
-- `skew_heap_remove` of the root, which is the only node that the schedulers remove.
use os_lab.Base.{has-append, Ptr, null, ℕ, ◌+◌, ◌<◌, some, ◌≡◌, ◌≢◌, false, arith, has}
use os_lab.Libs.SkewHeap.Defs.{skew_heap_merge, Nodes, Compare, skew_heap_remove, set_parent}
use os_lab.Libs.SkewHeap.Tree.{Tree, leaf, node, nodes, size, meld}
use os_lab.Libs.SkewHeap.Members.{Proper, has-meld, Proper-meld}
use os_lab.Libs.SkewHeap.Shape.{
  Shape, Parents, Kids, SameNode, SameDown, Shape-frame, Parents-frame, Kids-Parents,
}
use os_lab.Libs.SkewHeap.Merge.{Merged, merge-meld}
use os_lab.Libs.SkewHeap.Heap.{IsHeap, Yields}

set_parent-SameDown : (g : Nodes) (c p q : Ptr) → SameDown g (set_parent c p g) q
unfolding set_parent
set_parent-SameDown g c p q = ground arith

set_parent-parent : (g : Nodes) (c p q : Ptr) → q ≢ c → (set_parent c p g).parent q ≡ g.parent q
unfolding set_parent
set_parent-parent g c p q ne = ground arith

set_parent-SameNode :
    (g : Nodes) (c p q : Ptr) (v : Tree)
    → Shape g c v
    → has q (nodes v) ≡ false
    → SameNode g (set_parent c p g) q
unfolding set_parent
set_parent-SameNode g c p q leaf s o = ground arith
set_parent-SameNode g c p q (node a z b) s o = ground arith

set_parent-Parents :
    (g : Nodes) (c p : Ptr) (v : Tree)
    → Shape g c v
    → Kids g v
    → Proper v
    → Parents (set_parent c p g) p v
unfolding set_parent
set_parent-Parents g c p leaf s k pv = tt
set_parent-Parents g c p (node a z b) s k pv = (
  ground arith,
  Parents-frame g (set_parent c p g) z a k.0 (λ q i. set_parent-parent g c p q (ground arith)),
  Parents-frame g (set_parent c p g) z b k.1 (λ q i. set_parent-parent g c p q (ground arith)),
)

module _ (comp : Compare) {h : Nodes} {a x : Ptr} {l r : Tree} (is : IsHeap h a (node l x r)) where
  remove-run :
      (f : ℕ) (c : Ptr) (g : Nodes)
      → skew_heap_merge comp f (h.left x) (h.right x) h ≡ some (c, g)
      → skew_heap_remove comp f a x h ≡ some (c, set_parent c null g)
  unfolding skew_heap_remove
  remove-run f c g e = rw (e, is.parents.0)

  -- With fuel above the number of the other nodes, removing the root of a heap ends in a heap of
  -- its two subtrees melded, and touches no node outside the heap.
  pub remove-Yields :
      (f : ℕ)
      → size l + size r < f
      → Yields h (node l x r) leaf (meld comp l r) (skew_heap_remove comp f a x h)
  remove-Yields f lt = record {
    root = m.root;
    after = set_parent m.root null m.after;
    runs = remove-run f m.root m.after m.runs;
    heap = record {
      shape =
          Shape-frame m.after (set_parent m.root null m.after) m.root (meld comp l r) m.shape
            (λ q i. set_parent-SameDown m.after m.root null q);
      parents = set_parent-Parents m.after m.root null (meld comp l r) m.shape m.kids proper;
      proper = proper;
    };
    spared = λ q i j. ground (
      arith,
      m.spared q,
      has-append q (nodes l) (nodes r),
      has-meld comp q l r,
      set_parent-SameNode m.after m.root null q (meld comp l r) m.shape,
    );
  }
    where
      proper : Proper (meld comp l r)
      proper = Proper-meld comp l r is.proper.3 is.proper.4 is.proper.2

      m : Merged h l r (meld comp l r) (skew_heap_merge comp f (h.left x) (h.right x) h)
      m =
          merge-meld comp f h l r (h.left x) (h.right x) is.shape.2 is.shape.3
            (Kids-Parents h x l is.parents.1) (Kids-Parents h x r is.parents.2) is.proper.3
            is.proper.4 is.proper.2 lt
