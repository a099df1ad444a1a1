-- ===== src/Mm/Areas/Destroy.antt =====
-- `mm_destroy` gives back every area of a space once.
use os_lab.Base.{
  ◌++◌, ap, ==_ne, ◌∷◌, ==_refl, refl, suc, arith, ◌+◌, [], Ends, ◌<◌, length, ◌≡◌, List, ℕ, Ptr,
}
use os_lab.Libs.Links.{Links, list_del, list_next}
use os_lab.Libs.Links.Ring.{Ring}
use os_lab.Libs.Links.Edit.{list_del-Ring}
use os_lab.Mm.Areas.Defs.{Spaces, free_areas, mm_destroy}
use os_lab.Mm.Areas.Sorted.{IsSpace}

free_areas_lem :
    (n : ℕ) (list : Ptr) (xs : List Ptr) (l : Links)
    → Ring l list xs
    → length xs < n
    → Ends (free_areas n list l) λ (freed, l'). (freed ≡ xs) × Ring l' list []
unfolding free_areas list_next
free_areas_lem Prim.Native.Nat.zero list xs l r lt = absurd (omega arith)
free_areas_lem (suc n) list [] l r lt = rw (r.chain.0, ==_refl list) (([], l), refl, (refl, r))
free_areas_lem (suc n) list (x ∷ xs) l r lt =
    let ((freed, l'), eq, (e, r')) =
      free_areas_lem n list xs (list_del x l) (list_del-Ring [] x xs r) (omega arith) in
    rw (r.chain.0, ==_ne x list (ground (arith, r.distinct.0)), eq)
      ((x ∷ freed, l'), refl, (ap (◌∷◌ x) e, r'))

-- On a sound space that nobody uses, mm_destroy ends, it frees the areas of the space, each once
-- and in their order, and then the space, and the space's list is empty then.
pub mm_destroy_lem :
    (s : Spaces) (mm : Ptr) (xs : List Ptr)
    → IsSpace s mm xs
    → (s.mms mm).mm_count ≡ 0
    → Ends (mm_destroy mm s) λ (freed, s'). (freed ≡ xs ++ mm ∷ []) × Ring s'.mmap_links mm []
unfolding mm_destroy
mm_destroy_lem s mm xs is e =
    let ((freed, l'), eq, (same, r')) =
      free_areas_lem ((s.mms mm).map_count + 1) mm xs s.mmap_links is.ring
        (omega (arith, is.counted)) in
    rw (e, eq)
      ((freed ++ mm ∷ [], record s { mmap_links = l' }), refl, (ap (λ ys. ys ++ mm ∷ []) same, r'))
