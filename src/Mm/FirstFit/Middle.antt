-- ===== src/Mm/FirstFit/Middle.antt =====
-- A sequence of blocks with one block in the middle that has changed.
use os_lab.Base.{
  Ptr, ℕ, suc, ◌+◌, ◌<◌, ◌≤◌, ◌≡◌, true, ◌||◌, List, ◌∷◌, ◌++◌, has-append, arith, ◌∙◌, refl,
}
use os_lab.Mm.FirstFit.Defs.{Page}
use os_lab.Mm.FirstFit.Blocks.{
  Blocks, end_of, total, in_range, in_blocks, SameBlocks, Blocks-frame, total-frame, end_of-frame,
  in_blocks-frame, Blocks-append, total-append, in_blocks-append,
}

module _ {f g : Ptr → Page} (front back : List Ptr) (s : SameBlocks f g (front ++ back)) where
  pub same_front : SameBlocks f g front
  same_front = record {
    property_same = λ q i. s.property_same q (ground (arith, has-append q front back));
    head_same = λ q i. s.head_same q (ground (arith, has-append q front back));
  }

  pub same_back : SameBlocks f g back
  same_back = record {
    property_same = λ q i. s.property_same q (ground (arith, has-append q front back));
    head_same = λ q i. s.head_same q (ground (arith, has-append q front back));
  }

  pub middle-Blocks :
      (lo y size : ℕ)
      → (g y).property ≡ size
      → (g y).is_head ≡ true
      → 0 < size
      → Blocks f lo front
      → end_of f lo front ≤ y
      → Blocks f (suc (y + size)) back
      → Blocks g lo (front ++ y ∷ back)
  middle-Blocks lo y size e h pos bf le bb =
      Blocks-append g lo front (y ∷ back) (Blocks-frame lo front same_front bf) (
        rw (end_of-frame lo front same_front, e)
          (le, pos, h, Blocks-frame (suc (y + size)) back same_back bb))

  pub middle-total :
      (y size : ℕ)
      → (g y).property ≡ size
      → total g (front ++ y ∷ back) ≡ total f front + (size + total f back)
  middle-total y size e = omega (
    arith,
    total-append g front (y ∷ back),
    total-frame front same_front,
    total-frame back same_back,
  )

  pub middle-in_blocks :
      (y size q : ℕ)
      → (g y).property ≡ size
      → in_blocks g (front ++ y ∷ back) q
        ≡ (in_blocks f front q || (in_range y size q || in_blocks f back q))
  middle-in_blocks y size q e =
      in_blocks-append g front (y ∷ back) q
      ∙ rw (e, in_blocks-frame front q same_front, in_blocks-frame back q same_back) refl
