-- ===== src/Libs/SkewHeap/Tree.antt =====
-- The trees that the nodes of a skew heap stand for, and merging as a function of two trees.
use os_lab.Base.{Ptr, ℕ, suc, ◌+◌, ◌≡◌, Bool, true, false, List, [], ◌∷◌, ◌++◌, arith}
use os_lab.Base.Int.{is_minus_one}
use os_lab.Libs.SkewHeap.Defs.{Compare}

pub data Tree : Type 0 where
  leaf : Tree
  node : Tree → Ptr → Tree → Tree

-- The root first.
abbrev pub nodes : Tree → List Ptr
nodes leaf = []
nodes (node l x r) = x ∷ (nodes l ++ nodes r)

abbrev pub size : Tree → ℕ
size leaf = 0
size (node l x r) = suc (size l + size r)

-- `a` goes before `b`.
abbrev pub before : Compare → Ptr → Ptr → Bool
before comp a b = is_minus_one (comp a b)

unfoldable pub meld : Compare → Tree → Tree → Tree
meld comp leaf u = u
meld comp (node l x r) leaf = node l x r
meld comp (node l x r) (node l' y r') = elim (before comp x y) [
  | true ↦ node (meld comp r (node l' y r')) x l
  | false ↦ node (meld comp (node l x r) r') y l'
]

module _ (comp : Compare) (l r : Tree) (x : Ptr) (l' r' : Tree) (y : Ptr) where
  pub meld_first :
      before comp x y ≡ true
      → meld comp (node l x r) (node l' y r') ≡ node (meld comp r (node l' y r')) x l
  unfolding meld
  meld_first e = ground arith

  pub meld_second :
      before comp x y ≡ false
      → meld comp (node l x r) (node l' y r') ≡ node (meld comp (node l x r) r') y l'
  unfolding meld
  meld_second e = ground arith
