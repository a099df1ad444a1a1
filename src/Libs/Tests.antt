-- ===== src/Libs/Tests.antt =====
-- Lists and heaps at small stores.
use os_lab.Base.{◌≡◌, Ends, Ptr, refl, List, [], ◌∷◌, ◌==◌, if◌then◌else◌, arith, ltb}
use os_lab.Base.Int.{pos, negsuc}
use os_lab.Base.Int.{pos}
use os_lab.Libs.Strings.Text.{IsString}
use os_lab.Libs.Readline.Defs.{readline}
use os_lab.Libs.Readline.Line.{Outside, readline_lem}
use os_lab.Libs.Links.{Links, list_add_before, list_add}
use os_lab.Libs.Links.Ring.{Ring}
use os_lab.Libs.Links.Edit.{list_add_before-Ring, list_add-Ring}
use os_lab.Libs.SkewHeap.Defs.{Nodes, Compare, skew_heap_merge, skew_heap_remove}
use os_lab.Libs.SkewHeap.Tree.{Tree, leaf, node, meld}
use os_lab.Libs.SkewHeap.Order.{IsOrder, IsOrdered, IsOrdered-meld}
use os_lab.Libs.SkewHeap.Heap.{IsHeap, Yields, single, merge-Yields}
use os_lab.Libs.SkewHeap.Remove.{remove-Yields}

-- The list with head 1 holds 5 and 7.
abbrev links : Links
links = record {
  prev = λ q. if q == 1 then 7 else if q == 5 then 1 else if q == 7 then 5 else q;
  next = λ q. if q == 1 then 5 else if q == 5 then 7 else if q == 7 then 1 else q;
}

links-Ring : Ring links 1 (5 ∷ 7 ∷ [])
links-Ring = record { chain = ground arith; distinct = ground arith }

links_with_nine_behind : Ring (list_add_before 1 9 links) 1 (5 ∷ 7 ∷ 9 ∷ [])
links_with_nine_behind = list_add_before-Ring (5 ∷ 7 ∷ []) 9 links-Ring refl

links_with_nine : Ring (list_add 1 9 links) 1 (9 ∷ 5 ∷ 7 ∷ [])
links_with_nine = list_add-Ring (5 ∷ 7 ∷ []) 9 links-Ring refl

-- The address is the key.
abbrev by_address : Compare
by_address a b = if ltb a b then negsuc 0 else if a == b then pos 0 else pos 1

-- Two heaps, 3 over 6 and 4 over 8.
abbrev forest : Nodes
forest = record {
  parent = λ q. if q == 6 then 3 else if q == 8 then 4 else 0;
  left = λ q. if q == 3 then 6 else if q == 4 then 8 else 0;
  right = λ q. 0;
}

abbrev tree : Ptr → Ptr → Tree
tree a b = node (single b) a leaf

first-IsHeap : IsHeap forest 3 (tree 3 6)
first-IsHeap = record { shape = ground arith; parents = ground arith; proper = ground arith }

second-IsHeap : IsHeap forest 4 (tree 4 8)
second-IsHeap = record { shape = ground arith; parents = ground arith; proper = ground arith }

merge-Yields_example :
    Yields forest
      (tree 3 6)
      (tree 4 8)
      (meld by_address (tree 3 6) (tree 4 8))
      (skew_heap_merge by_address 5 3 4 forest)
merge-Yields_example =
    merge-Yields by_address first-IsHeap second-IsHeap 5 (λ q i. ground arith) (omega arith)

remove-Yields_example :
    Yields forest
      (tree 3 6)
      leaf
      (meld by_address (single 6) leaf)
      (skew_heap_remove by_address 2 3 3 forest)
remove-Yields_example = remove-Yields by_address first-IsHeap 2 (omega arith)

by_address-IsOrder : (among : List Ptr) → IsOrder by_address among
by_address-IsOrder among = record {
  asym = λ a b i j h. ground arith;
  trans = λ a b c i j k h h'. ground arith;
}

IsOrdered-meld_example : IsOrdered by_address (meld by_address (tree 3 6) (tree 4 8))
IsOrdered-meld_example =
    IsOrdered-meld (by_address-IsOrder (3 ∷ 6 ∷ 4 ∷ 8 ∷ [])) (tree 3 6) (tree 4 8)
      ((λ q i. ground arith), (λ q i. ground arith), ground arith, tt)
      ((λ q i. ground arith), (λ q i. ground arith), ground arith, tt) (λ q i. ground arith)
      (λ q i. ground arith)

-- "ox", a backspace, "k" and a newline.
readline_lem_example :
    Ends
      (readline (pos 111 ∷ pos 120 ∷ pos 8 ∷ pos 107 ∷ pos 10 ∷ []) 400 (λ q. 7))
      λ (p, mem'). (p ≡ 400) × IsString mem' 400 (111 ∷ 107 ∷ []) × Outside 400 (λ q. 7) mem'
readline_lem_example =
    readline_lem (pos 111 ∷ pos 120 ∷ pos 8 ∷ pos 107 ∷ pos 10 ∷ []) 400 (λ q. 7) (111 ∷ 107 ∷ [])
      (ground arith) refl
