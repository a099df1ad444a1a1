-- ===== src/Libs/Links/Ring.antt =====
-- What the pointers of a circular list stand for: its nodes in order.
use os_lab.Base.{
  Ptr, ◌≡◌, ◌≢◌, true, List, [], ◌∷◌, ◌++◌, arith, has, Distinct, last_or, head_or, has-last_or,
}
use os_lab.Libs.Links.{Links}

-- From `a` the links lead through `xs` to `b`, and back.
abbrev pub Chain : Links → Ptr → List Ptr → Ptr → Type 0
Chain l a [] b = (l.next a ≡ b) × (l.prev b ≡ a)
Chain l a (x ∷ xs) b = (l.next a ≡ x) × (l.prev x ≡ a) × Chain l x xs b

-- The list with head node `h` holds `xs`.
pub record Ring (l : Links) (h : Ptr) (xs : List Ptr) : Type 0 where
  pub chain : Chain l h xs h
  pub distinct : Distinct (h ∷ xs)

pub next-head_or :
    (l : Links) (a : Ptr) (xs : List Ptr) (b : Ptr) → Chain l a xs b → l.next a ≡ head_or b xs
next-head_or l a [] b c = c.0
next-head_or l a (x ∷ xs) b c = c.0

pub prev-last_or :
    (l : Links) (a : Ptr) (xs : List Ptr) (b : Ptr) → Chain l a xs b → l.prev b ≡ last_or a xs
prev-last_or l a [] b c = c.1
prev-last_or l a (x ∷ xs) b c = prev-last_or l x xs b c.2

-- A chain survives a change that spares the pointers that it reads.
pub Chain-frame :
    (l m : Links) (a : Ptr) (xs : List Ptr) (b : Ptr)
    → Chain l a xs b
    → ((q : Ptr) → has q (a ∷ xs) ≡ true → m.next q ≡ l.next q)
    → ((q : Ptr) → has q (b ∷ xs) ≡ true → m.prev q ≡ l.prev q)
    → Chain m a xs b
Chain-frame l m a [] b c n p = ground (arith, n a, p b)
Chain-frame l m a (x ∷ xs) b c n p = (
  ground (arith, n a),
  ground (arith, p x),
  Chain-frame l m x xs b c.2 (λ q h. n q (ground arith)) (λ q h. p q (ground arith)),
)

-- A chain through a middle node is two chains.
pub Chain-append :
    (l : Links) (a : Ptr) (xs : List Ptr) (e : Ptr) (ys : List Ptr) (b : Ptr)
    → Chain l a xs e
    → Chain l e ys b
    → Chain l a (xs ++ e ∷ ys) b
Chain-append l a [] e ys b c d = (c.0, c.1, d)
Chain-append l a (x ∷ xs) e ys b c d = (c.0, c.1, Chain-append l x xs e ys b c.2 d)

pub Chain-split :
    (l : Links) (a : Ptr) (xs : List Ptr) (e : Ptr) (ys : List Ptr) (b : Ptr)
    → Chain l a (xs ++ e ∷ ys) b
    → Chain l a xs e × Chain l e ys b
Chain-split l a [] e ys b c = ((c.0, c.1), c.2)
Chain-split l a (x ∷ xs) e ys b c = let r = Chain-split l x xs e ys b c.2 in ((c.0, c.1, r.0), r.1)

-- A chain loses its last link: all but the end's `prev` and the last node's `next`.
pub Chain-relink :
    (l m : Links) (a : Ptr) (xs : List Ptr) (b e : Ptr)
    → Chain l a xs b
    → Distinct (a ∷ xs)
    → m.next (last_or a xs) ≡ e
    → m.prev e ≡ last_or a xs
    → ((q : Ptr) → has q (a ∷ xs) ≡ true → q ≢ last_or a xs → m.next q ≡ l.next q)
    → ((q : Ptr) → has q xs ≡ true → m.prev q ≡ l.prev q)
    → Chain m a xs e
Chain-relink l m a [] b e c d n p fn fp = (n, p)
Chain-relink l m a (x ∷ xs) b e c d n p fn fp = (
  ground (arith, fn a (ground arith) (ground (arith, has-last_or x xs)), has-last_or x xs),
  ground (arith, fp x),
  Chain-relink l m x xs b e c.2 d.1 n p (λ q h. fn q (ground arith)) (λ q h. fp q (ground arith)),
)
