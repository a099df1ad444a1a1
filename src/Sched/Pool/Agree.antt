-- ===== src/Sched/Pool/Agree.antt =====
-- Orders of the heap under comparisons that agree on its nodes.
use os_lab.Libs.SkewHeap.Defs.{Compare}
use os_lab.Libs.SkewHeap.Tree.{Tree, leaf, node, nodes, before}
use os_lab.Libs.SkewHeap.Order.{IsOrder, IsOrdered, Least, Within}
use os_lab.Sched.Pool.Queue.{top}
use os_lab.Base.{true, has-append, List, has, arith, ◌≡◌, Ptr}

-- An order stays one under a comparison that agrees on the nodes.
pub IsOrdered-agree :
    (comp comp' : Compare) (t : Tree)
    → ((a b : Ptr)
        → has a (nodes t) ≡ true
        → has b (nodes t) ≡ true
        → before comp' a b ≡ before comp a b)
    → IsOrdered comp t
    → IsOrdered comp' t
IsOrdered-agree comp comp' leaf e o = tt
IsOrdered-agree comp comp' (node l x r) e o = (
  (λ q i. ground (arith, o.0 q, e q x, has-append q (nodes l) (nodes r))),
  (λ q i. ground (arith, o.1 q, e q x, has-append q (nodes l) (nodes r))),
  IsOrdered-agree comp comp' l
      (λ a b i j.
        e a b (ground (arith, has-append a (nodes l) (nodes r)))
          (ground (arith, has-append b (nodes l) (nodes r))))
      o.2,
  IsOrdered-agree comp comp' r
      (λ a b i j.
        e a b (ground (arith, has-append a (nodes l) (nodes r)))
          (ground (arith, has-append b (nodes l) (nodes r))))
      o.3,
)

pub IsOrder-agree :
    (comp comp' : Compare) (xs : List Ptr)
    → ((a b : Ptr) → has a xs ≡ true → has b xs ≡ true → before comp' a b ≡ before comp a b)
    → IsOrder comp xs
    → IsOrder comp' xs
IsOrder-agree comp comp' xs e o = record {
  asym = λ a b i j h. ground (arith, o.asym a b, e a b, e b a);
  trans = λ a b c i j k h h'. ground (arith, o.trans a b c, e b a, e c b, e c a);
}

pub IsOrder-Within :
    (comp : Compare) (xs ys : List Ptr) → Within xs ys → IsOrder comp ys → IsOrder comp xs
IsOrder-Within comp xs ys w o = record {
  asym = λ a b i j. o.asym a b (w a i) (w b j);
  trans = λ a b c i j k. o.trans a b c (w a i) (w b j) (w c k);
}

-- The top of an ordered tree goes first.
pub top-Least :
    (comp : Compare) (t : Tree)
    → IsOrder comp (nodes t)
    → IsOrdered comp t
    → Least comp (top t) (nodes t)
top-Least comp leaf s o q i = ground arith
top-Least comp (node l x r) s o q i =
    ground (arith, o.0 q, o.1 q, has-append q (nodes l) (nodes r), s.asym x x)
