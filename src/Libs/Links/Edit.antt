-- ===== src/Libs/Links/Edit.antt =====
-- Insertion and deletion in a circular list, as operations on the list that it stands for.
use mathlib.Core.List.{append-nil}
use os_lab.Base.{
  ◌||◌, Ptr, ◌≡◌, false, List, [], ◌∷◌, ◌++◌, arith, has, Distinct, last_or, head_or, has-append,
  has-last_or, Distinct-apart, Distinct-left, Distinct-right, Distinct-insert, Distinct-remove,
}
use os_lab.Libs.Links.{
  Links, list_add_between, list_del_between, list_add_before, list_add, list_del,
}
use os_lab.Libs.Links.Ring.{
  Chain, Ring, next-head_or, prev-last_or, Chain-frame, Chain-append, Chain-split, Chain-relink,
}

-- The front part of the ring, led to the new node.
front-Chain :
    (l : Links) (h : Ptr) (xs : List Ptr) (e b : Ptr)
    → Chain l h xs b
    → Distinct (h ∷ xs)
    → has e (h ∷ xs) ≡ false
    → has b xs ≡ false
    → Chain (list_add_between e (last_or h xs) b l) h xs e
unfolding list_add_between
front-Chain l h xs e b c d o ob =
    Chain-relink l _ h xs b e c d (ground (arith, has-last_or h xs)) (ground arith)
      (λ q i ne. ground arith) (λ q i. ground arith)

add_between-Chain :
    (l : Links) (h : Ptr) (xs : List Ptr) (e : Ptr) (ys : List Ptr)
    → Chain l h (xs ++ ys) h
    → Distinct (h ∷ xs ++ ys)
    → has e (h ∷ xs ++ ys) ≡ false
    → Chain (list_add_between e (last_or h xs) (head_or h ys) l) h (xs ++ e ∷ ys) h
unfolding list_add_between
add_between-Chain l h xs e [] c d o =
    let d' : Distinct (h ∷ xs) = Distinct-left (h ∷ xs) [] d in
    let o' : has e (h ∷ xs) ≡ false = ground (arith, has-append e (h ∷ xs) []) in
    Chain-append _ h xs e [] h (front-Chain l h xs e h (rw append-nil at c) d' o' d'.0)
      (ground arith, ground arith)
add_between-Chain l h xs e (y ∷ ys) c d o =
    let (c0, c1) = Chain-split l h xs y ys h c in
    let d' = Distinct-left (h ∷ xs) (y ∷ ys) d in
    let apart = Distinct-apart (h ∷ xs) (y ∷ ys) in
    let o' : (has e (h ∷ xs) || has e (y ∷ ys)) ≡ false =
      ground (arith, has-append e (h ∷ xs) (y ∷ ys)) in
    let last = apart (last_or h xs) d (has-last_or h xs) in
    Chain-append _ h xs e (y ∷ ys) h
      (front-Chain l h xs e y c0 d' (ground arith) (ground (arith, apart y d)))
      (
        ground arith,
        ground arith,
        Chain-frame l _ y ys h c1 (λ q i. ground arith)
            (λ q i. ground (arith, apart h d, (Distinct-right (h ∷ xs) (y ∷ ys) d).0)),
      )

del_between-Chain :
    (l : Links) (h : Ptr) (xs : List Ptr) (e : Ptr) (ys : List Ptr)
    → Chain l h (xs ++ e ∷ ys) h
    → Distinct (h ∷ xs ++ e ∷ ys)
    → Chain (list_del_between (last_or h xs) (head_or h ys) l) h (xs ++ ys) h
unfolding list_del_between
del_between-Chain l h xs e [] c d =
    let (c0, c1) = Chain-split l h xs e [] h c in
    let d' : Distinct (h ∷ xs) = Distinct-left (h ∷ xs) (e ∷ []) d in
    rw append-nil (
      Chain-relink l _ h xs e h c0 d' (ground arith) (ground arith) (λ q i ne. ground arith)
        (λ q i. ground arith))
del_between-Chain l h xs e (y ∷ ys) c d =
    let (c0, c1) = Chain-split l h xs e (y ∷ ys) h c in
    let d' = Distinct-left (h ∷ xs) (e ∷ y ∷ ys) d in
    let apart = Distinct-apart (h ∷ xs) (e ∷ y ∷ ys) in
    let last = apart (last_or h xs) d (has-last_or h xs) in
    Chain-append _ h xs y ys h
      (Chain-relink l _ h xs e y c0 d' (ground arith) (ground arith) (λ q i ne. ground arith)
        (λ q i. ground (arith, apart y d)))
      (Chain-frame l _ y ys h c1.2 (λ q i. ground arith)
        (λ q i. ground (arith, apart h d, (Distinct-right (h ∷ xs) (e ∷ y ∷ ys) d).1.0)))

pub next_of_last :
    (l : Links) (a : Ptr) (xs ys : List Ptr) (b : Ptr)
    → Chain l a (xs ++ ys) b
    → l.next (last_or a xs) ≡ head_or b ys
next_of_last l a [] ys b c = next-head_or l a ys b c
next_of_last l a (x ∷ xs) ys b c = next_of_last l x xs ys b c.2

module _ {l : Links} {h : Ptr} where
  pub prev_of-Ring :
      (xs : List Ptr) (e : Ptr) (ys : List Ptr) → Ring l h (xs ++ e ∷ ys) → l.prev e ≡ last_or h xs
  prev_of-Ring xs e ys r = prev-last_or l h xs e (Chain-split l h xs e ys h r.chain).0

  pub next_of-Ring :
      (xs : List Ptr) (e : Ptr) (ys : List Ptr) → Ring l h (xs ++ e ∷ ys) → l.next e ≡ head_or h ys
  next_of-Ring xs e ys r = next-head_or l e ys h (Chain-split l h xs e ys h r.chain).1

  add_between-Ring :
      (xs : List Ptr) (e : Ptr) (ys : List Ptr)
      → Ring l h (xs ++ ys)
      → has e (h ∷ xs ++ ys) ≡ false
      → Ring (list_add_between e (last_or h xs) (head_or h ys) l) h (xs ++ e ∷ ys)
  add_between-Ring xs e ys r o = record {
    chain = add_between-Chain l h xs e ys r.chain r.distinct o;
    distinct = Distinct-insert (h ∷ xs) e ys r.distinct o;
  }

  -- At the head of a circular list, list_add_before puts a node that is not in the list at the
  -- end.
  pub list_add_before-Ring :
      (xs : List Ptr) (e : Ptr)
      → Ring l h xs
      → has e (h ∷ xs) ≡ false
      → Ring (list_add_before h e l) h (xs ++ e ∷ [])
  unfolding list_add_before
  list_add_before-Ring xs e r o =
      rw (prev-last_or l h xs h r.chain)
        (add_between-Ring xs e [] (rw append-nil r) (rw append-nil o))

  -- `list_add_before` at a node of the list puts a new node in front of it.
  pub list_add_before-Ring_at :
      (xs : List Ptr) (y : Ptr) (ys : List Ptr) (e : Ptr)
      → Ring l h (xs ++ y ∷ ys)
      → has e (h ∷ xs ++ y ∷ ys) ≡ false
      → Ring (list_add_before y e l) h (xs ++ e ∷ y ∷ ys)
  unfolding list_add_before
  list_add_before-Ring_at xs y ys e r o =
      rw (prev_of-Ring xs y ys r) (add_between-Ring xs e (y ∷ ys) r o)

  -- At the head of a circular list, list_add puts a node that is not in the list at the front.
  pub list_add-Ring :
      (xs : List Ptr) (e : Ptr)
      → Ring l h xs
      → has e (h ∷ xs) ≡ false
      → Ring (list_add h e l) h (e ∷ xs)
  unfolding list_add
  list_add-Ring xs e r o = rw (next-head_or l h xs h r.chain) (add_between-Ring [] e xs r o)

  -- `list_add` at a node of the list puts a new node behind it.
  pub list_add-Ring_at :
      (xs : List Ptr) (e : Ptr) (ys : List Ptr)
      → Ring l h (xs ++ ys)
      → has e (h ∷ xs ++ ys) ≡ false
      → Ring (list_add (last_or h xs) e l) h (xs ++ e ∷ ys)
  unfolding list_add
  list_add-Ring_at xs e ys r o =
      rw (next_of_last l h xs ys h r.chain) (add_between-Ring xs e ys r o)

  -- `list_del` takes its node out of the list.
  pub list_del-Ring :
      (xs : List Ptr) (e : Ptr) (ys : List Ptr)
      → Ring l h (xs ++ e ∷ ys)
      → Ring (list_del e l) h (xs ++ ys)
  unfolding list_del
  list_del-Ring xs e ys r =
      rw (prev_of-Ring xs e ys r, next_of-Ring xs e ys r)
        (record {
          chain = del_between-Chain l h xs e ys r.chain r.distinct;
          distinct = (Distinct-remove (h ∷ xs) e ys r.distinct).0;
        })
