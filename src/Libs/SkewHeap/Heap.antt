-- ===== src/Libs/SkewHeap/Heap.antt =====
-- The promise of the skew heap to its callers: a set of nodes, none of which goes before the root.
use os_lab.Base.{
  inr, inl, ◌⊎◌, refl, Ptr, null, ℕ, ◌+◌, ◌<◌, Option, some, ◌≡◌, ◌≢◌, false, arith, has,
}
use os_lab.Libs.SkewHeap.Defs.{Nodes, Compare, skew_heap_init, skew_heap_insert, skew_heap_merge}
use os_lab.Libs.SkewHeap.Tree.{Tree, leaf, node, nodes, size, meld}
use os_lab.Libs.SkewHeap.Members.{Apart, Proper, Proper-meld}
use os_lab.Libs.SkewHeap.Shape.{
  Kids-Parents, Shape, Parents, Kids, SameNode, Shape-frame, Parents-frame,
}
use os_lab.Libs.SkewHeap.Merge.{Merged, merge-meld}

-- The store holds the tree `t` at `root`, and the root has no parent.
pub record IsHeap (h : Nodes) (root : Ptr) (t : Tree) : Type 0 where
  pub shape : Shape h root t
  pub parents : Parents h null t
  pub proper : Proper t

-- A run ends in a heap `v`, and touches only the nodes of `t` and `u`.
pub record Yields (h : Nodes) (t u v : Tree) (run : Option (Ptr × Nodes)) : Type 0 where
  pub root : Ptr
  pub after : Nodes
  pub runs : run ≡ some (root, after)
  pub heap : IsHeap after root v
  pub spared : (q : Ptr) → has q (nodes t) ≡ false → has q (nodes u) ≡ false → SameNode h after q

abbrev pub single : Ptr → Tree
single b = node leaf b leaf

Parents-of_Kids :
    (h : Nodes) (p r : Ptr) (t : Tree) → Shape h r t → Kids h t → h.parent r ≡ p → Parents h p t
Parents-of_Kids h p r leaf s k e = tt
Parents-of_Kids h p r (node l x r') s k e = (ground arith, k.0, k.1)

init-IsHeap : (h : Nodes) (b : Ptr) → b ≢ null → IsHeap (skew_heap_init b h) b (single b)
unfolding skew_heap_init
init-IsHeap h b ne = record {
  shape = (refl, ne, ground arith, ground arith);
  parents = (ground arith, tt, tt);
  proper = ground arith;
}

-- The root of a merged tree was a root before.
meld-root :
    (comp : Compare) (h g : Nodes) (a b p : Ptr) (t u : Tree)
    → Shape h a t
    → Shape h b u
    → Shape g p (meld comp t u)
    → (p ≡ a) ⊎ (p ≡ b)
unfolding meld
meld-root comp h g a b p leaf leaf st su s = inl (ground arith)
meld-root comp h g a b p leaf (node l y r) st su s = inr (ground arith)
meld-root comp h g a b p (node l x r) leaf st su s = inl (ground arith)
meld-root comp h g a b p (node l x r) (node l' y r') st su s = ground arith

parent_of_root :
    (h : Nodes) (p : Ptr) (t : Tree) → Shape h p t → Parents h null t → p ≢ null → h.parent p ≡ null
parent_of_root h p leaf s k ne = absurd (ne s)
parent_of_root h p (node l x r) s k ne = ground arith

module _ (comp : Compare) {h : Nodes} {a b : Ptr} {t u : Tree} (it : IsHeap h a t)
    (iu : IsHeap h b u) where
  -- With fuel above the number of nodes, skew_heap_merge of two heaps that share no node ends in a
  -- heap of the melded tree, with sound parent pointers, and touches no node outside the two.
  pub merge-Yields :
      (f : ℕ)
      → Apart (nodes t) (nodes u)
      → size t + size u < f
      → Yields h t u (meld comp t u) (skew_heap_merge comp f a b h)
  merge-Yields f d lt = record {
    root = m.root;
    after = m.after;
    runs = m.runs;
    heap = record {
      shape = m.shape;
      parents =
          all_Parents (meld comp t u) m.shape m.kids
            (meld-root comp h m.after a b m.root t u it.shape iu.shape m.shape);
      proper = Proper-meld comp t u it.proper iu.proper d;
    };
    spared = m.spared;
  }
    where
      m : Merged h t u (meld comp t u) (skew_heap_merge comp f a b h)
      m =
          merge-meld comp f h t u a b it.shape iu.shape (Kids-Parents h null t it.parents)
            (Kids-Parents h null u iu.parents) it.proper iu.proper d lt

      all_Parents :
          (v : Tree)
          → Shape m.after m.root v
          → Kids m.after v
          → (m.root ≡ a) ⊎ (m.root ≡ b)
          → Parents m.after null v
      all_Parents leaf s k c = tt
      all_Parents (node l x r) s k c = (
        ground (
          arith,
          m.root_parent,
          parent_of_root h a t it.shape it.parents,
          parent_of_root h b u iu.shape iu.parents,
        ),
        k.0,
        k.1,
      )

init-SameNode : (h : Nodes) (b q : Ptr) → q ≢ b → SameNode h (skew_heap_init b h) q
unfolding skew_heap_init
init-SameNode h b q ne = ground arith

module _ (comp : Compare) {h : Nodes} {a : Ptr} {t : Tree} (is : IsHeap h a t) where
  pub init_keeps : (b : Ptr) → has b (nodes t) ≡ false → IsHeap (skew_heap_init b h) a t
  unfolding skew_heap_init
  init_keeps b out = record {
    shape = Shape-frame h (skew_heap_init b h) a t is.shape (λ q i. ground arith);
    parents = Parents-frame h (skew_heap_init b h) null t is.parents (λ q i. ground arith);
    proper = is.proper;
  }

  -- With fuel above the number of nodes, inserting a node that is not NULL and not in the heap
  -- ends in a heap of the tree melded with the node, and touches no node outside the two.
  pub insert-Yields :
      (f : ℕ) (b : Ptr)
      → b ≢ null
      → has b (nodes t) ≡ false
      → size t + 1 < f
      → Yields h t (single b) (meld comp t (single b)) (skew_heap_insert comp f a b h)
  unfolding skew_heap_insert
  insert-Yields f b ne out lt = record {
    root = y.root;
    after = y.after;
    runs = y.runs;
    heap = y.heap;
    spared = λ q i j. ground (arith, y.spared q, init-SameNode h b q);
  }
    where
      y :
          Yields
            (skew_heap_init b h)
            t
            (single b)
            (meld comp t (single b))
            (skew_heap_merge comp f a b (skew_heap_init b h))
      y =
          merge-Yields comp (init_keeps b out) (init-IsHeap h b ne) f (λ q i. ground arith)
            (omega arith)
