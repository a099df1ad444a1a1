-- ===== src/Libs/SkewHeap/Merge.antt =====
-- `skew_heap_merge` on two trees of a store builds the melded tree, with enough fuel.
use os_lab.Base.{
  refl, Ptr, null, ℕ, zero, suc, ◌+◌, ◌<◌, Option, some, ◌≡◌, ◌≢◌, inl, inr, true, false, ◌||◌,
  arith, has, has-append, Bool-cases, ==_ne, ◌>>=◌,
}
use os_lab.Libs.SkewHeap.Defs.{Nodes, Compare, link, skew_heap_merge}
use os_lab.Libs.SkewHeap.Tree.{Tree, leaf, node, nodes, size, before, meld, meld_first, meld_second}
use os_lab.Libs.SkewHeap.Members.{Apart, Proper, has-meld, Proper-meld}
use os_lab.Libs.SkewHeap.Shape.{
  Kids-Parents, Shape, Parents, Kids, SameNode, Shape-frame, Parents-frame,
}
use os_lab.Libs.SkewHeap.Link.{link-node, link-SameNode, link-parent_out}

-- A run ends in a store that holds the tree `v`, and touches only the nodes of `t` and `u`.
pub record Merged (h : Nodes) (t u v : Tree) (run : Option (Ptr × Nodes)) : Type 0 where
  pub root : Ptr
  pub after : Nodes
  pub runs : run ≡ some (root, after)
  pub shape : Shape after root v
  pub kids : Kids after v
  pub spared : (q : Ptr) → has q (nodes t) ≡ false → has q (nodes u) ≡ false → SameNode h after q
  pub root_parent : after.parent root ≡ h.parent root

-- The way back from a recursive call that merged `t` and `u`: `x`, above them, takes the result
-- as its left subtree. The whole call was on `t'` and `u'`.
module _ {h : Nodes} {t u v : Tree} {run : Option (Ptr × Nodes)} (m : Merged h t u v run) where
  step-Merged :
      (x : Ptr) (l t' u' : Tree)
      → x ≢ null
      → Shape h (h.left x) l
      → Parents h x l
      → Proper v
      → has x (nodes v) ≡ false
      → has x (nodes l) ≡ false
      → has x (nodes t) ≡ false
      → has x (nodes u) ≡ false
      → ((q : Ptr) → has q (nodes v) ≡ (has q (nodes t) || has q (nodes u)))
      → Apart (nodes l) (nodes t)
      → Apart (nodes l) (nodes u)
      → ((q : Ptr)
          → has q (nodes t') ≡ false
          → has q (nodes u') ≡ false
          → (q ≢ x) × (has q (nodes t) ≡ false) × (has q (nodes u) ≡ false))
      → Merged h t' u' (node v x l) (run >>= λ (c, g). some (x, link x c (h.left x) g))
  step-Merged x l t' u' ne sl pl pv ov ol ot ou mem dt du out = record {
    root = x;
    after = link x m.root (h.left x) m.after;
    runs = rw m.runs;
    shape = linked.0;
    kids = linked.1;
    spared = λ q i j.
        ground
          (arith, out q, m.spared q, mem q, link-SameNode m.after x m.root (h.left x) v q m.shape);
    root_parent =
        ground (arith, m.spared x, link-parent_out m.after x m.root (h.left x) v x m.shape);
  }
    where
      same_l : (q : Ptr) → has q (nodes l) ≡ true → SameNode h m.after q
      same_l q i = m.spared q (dt q i) (du q i)

      linked :
          Shape (link x m.root (h.left x) m.after) x (node v x l)
          × Kids (link x m.root (h.left x) m.after) (node v x l)
      linked =
          link-node m.after x m.root (h.left x) v l ne m.shape m.kids pv
            (Shape-frame h m.after (h.left x) l sl (λ q i. (same_l q i).down))
            (Parents-frame h m.after x l pl (λ q i. (same_l q i).parent_same)) ov ol
            (λ q i. ground (arith, mem q, dt q, du q))

module _ (comp : Compare) where
  merge_first :
      (f : ℕ) (h : Nodes) (a b : Ptr)
      → a ≢ null
      → b ≢ null
      → before comp a b ≡ true
      → skew_heap_merge comp (suc f) a b h
        ≡ (skew_heap_merge comp f (h.right a) b h >>= λ (c, g). some (a, link a c (h.left a) g))
  unfolding skew_heap_merge
  merge_first f h a b na nb e = rw (==_ne a null na, ==_ne b null nb, e)

  merge_second :
      (f : ℕ) (h : Nodes) (a b : Ptr)
      → a ≢ null
      → b ≢ null
      → before comp a b ≡ false
      → skew_heap_merge comp (suc f) a b h
        ≡ (skew_heap_merge comp f a (h.right b) h >>= λ (c, g). some (b, link b c (h.left b) g))
  unfolding skew_heap_merge
  merge_second f h a b na nb e = rw (==_ne a null na, ==_ne b null nb, e)

  pub merge-meld :
      (f : ℕ) (h : Nodes) (t u : Tree) (a b : Ptr)
      → Shape h a t
      → Shape h b u
      → Kids h t
      → Kids h u
      → Proper t
      → Proper u
      → Apart (nodes t) (nodes u)
      → size t + size u < f
      → Merged h t u (meld comp t u) (skew_heap_merge comp f a b h)
  unfolding skew_heap_merge meld
  merge-meld zero h t u a b st su kt ku pt pu d lt = absurd (omega arith)
  merge-meld (suc f) h leaf u a b st su kt ku pt pu d lt = record {
    root = b;
    after = h;
    runs = ground arith;
    shape = su;
    kids = ku;
    spared = λ q i j. ground arith;
    root_parent = refl;
  }
  merge-meld (suc f) h (node l x r) leaf a b st su kt ku pt pu d lt = record {
    root = a;
    after = h;
    runs = ground arith;
    shape = st;
    kids = kt;
    spared = λ q i j. ground arith;
    root_parent = refl;
  }
  merge-meld (suc f) h (node l x r) (node l' y r') a b st su kt ku pt pu d lt =
      elim (Bool-cases (before comp x y)) [
        | inl e ↦
            rw (st.0, su.0, merge_first f h x y st.1 su.1 e, meld_first comp l r x l' r' y e)
              (step-Merged
                (merge-meld f h r (node l' y r') (h.right x) y st.3 (refl, su.1, su.2, su.3)
                  (Kids-Parents h x r kt.1) ku pt.4 pu
                  (λ q i. ground (arith, d q, has-append q (nodes l) (nodes r))) (omega arith))
                x l (node l x r) (node l' y r') st.1 st.2 kt.0
                (Proper-meld comp r (node l' y r') pt.4 pu
                  (λ q i. ground (arith, d q, has-append q (nodes l) (nodes r))))
                (ground (arith, has-meld comp x r (node l' y r'), d x)) pt.0 pt.1
                (d x (ground arith)) (λ q. has-meld comp q r (node l' y r')) (λ q i. pt.2 q i)
                (λ q i. d q (ground (arith, has-append q (nodes l) (nodes r))))
                (λ q i j. ground (arith, has-append q (nodes l) (nodes r))))
        | inr e ↦
            rw (st.0, su.0, merge_second f h x y st.1 su.1 e, meld_second comp l r x l' r' y e)
              (step-Merged
                (merge-meld f h (node l x r) r' x (h.right y) (refl, st.1, st.2, st.3) su.3 kt
                  (Kids-Parents h y r' ku.1) pt pu.4
                  (λ q i. ground (arith, d q, has-append q (nodes l') (nodes r'))) (omega arith))
                y l' (node l x r) (node l' y r') su.1 su.2 ku.0
                (Proper-meld comp (node l x r) r' pt pu.4
                  (λ q i. ground (arith, d q, has-append q (nodes l') (nodes r'))))
                (ground (arith, has-meld comp y (node l x r) r', d y)) pu.0 (ground (arith, d y))
                pu.1 (λ q. has-meld comp q (node l x r) r')
                (λ q i. ground (arith, d q, has-append q (nodes l') (nodes r'))) (λ q i. pu.2 q i)
                (λ q i j. ground (arith, has-append q (nodes l') (nodes r'))))
      ]
