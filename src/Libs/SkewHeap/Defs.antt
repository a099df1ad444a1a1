-- ===== src/Libs/SkewHeap/Defs.antt =====
-- libs/skew_heap.h: a heap of nodes with parent, left and right pointers. A comparison gets the
-- addresses of two nodes and returns an `int`, which the code tests against -1.
use os_lab.Base.{Ptr, null, ℕ, zero, suc, Option, none, some, ◌>>=◌, update, ◌==◌, if◌then◌else◌}
use os_lab.Base.Int.{ℤ, is_minus_one}

pub record Nodes : Type 0 where
  pub parent : Ptr → Ptr
  pub left : Ptr → Ptr
  pub right : Ptr → Ptr

abbrev pub Compare : Type 0
Compare = Ptr → Ptr → ℤ

unfoldable pub skew_heap_init : Ptr → Nodes → Nodes
skew_heap_init a h = record {
  parent = update h.parent a null;
  left = update h.left a null;
  right = update h.right a null;
}

-- a->left = l; a->right = r; if (l) l->parent = a;
unfoldable pub link : (a l r : Ptr) → Nodes → Nodes
link a l r h = record {
  parent = if l == null then h.parent else update h.parent l a;
  left = update h.left a l;
  right = update h.right a r;
}

-- The recursion runs on fuel; `none` means that the fuel ran out.
unfoldable pub skew_heap_merge : Compare → ℕ → (a b : Ptr) → Nodes → Option (Ptr × Nodes)
skew_heap_merge comp zero a b h = none
skew_heap_merge comp (suc f) a b h =
    let a_first = do
      (l, h') ← skew_heap_merge comp f (h.right a) b h
      some (a, link a l (h.left a) h')
    in let b_first = do
      (l, h') ← skew_heap_merge comp f a (h.right b) h
      some (b, link b l (h.left b) h')
      in if a == null
        then some (b, h)
        else if b == null
        then some (a, h)
        else if is_minus_one (comp a b)
        then a_first
        else b_first

unfoldable pub skew_heap_insert : Compare → ℕ → (a b : Ptr) → Nodes → Option (Ptr × Nodes)
unfolding skew_heap_init
skew_heap_insert comp f a b h = skew_heap_merge comp f a b (skew_heap_init b h)

-- if (rep) rep->parent = p;
unfoldable pub set_parent : (rep p : Ptr) → Nodes → Nodes
set_parent rep p h = if rep == null then h else record h { parent = update h.parent rep p }

unfoldable pub replace_child : (p b rep : Ptr) → Nodes → Nodes
replace_child p b rep h =
    if h.left p == b
    then record h { left = update h.left p rep }
    else record h { right = update h.right p rep }

unfoldable pub skew_heap_remove : Compare → ℕ → (a b : Ptr) → Nodes → Option (Ptr × Nodes)
unfolding set_parent replace_child
skew_heap_remove comp f a b h = do
  (rep, h') ← skew_heap_merge comp f (h.left b) (h.right b) h
  let p = h.parent b
  let linked = set_parent rep p h'
  if p == null then some (rep, linked) else some (a, replace_child p b rep linked)
