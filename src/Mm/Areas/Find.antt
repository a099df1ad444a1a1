-- ===== src/Mm/Areas/Find.antt =====
-- `find_vma`: the cache does not change the answer.
use os_lab.Base.{
  Ptr, null, ℕ, suc, ◌+◌, ◌<◌, ◌≡◌, ◌≢◌, Bool-cases, inl, inr, true, false, not, ◌&&◌, ◌==◌, ==_ne,
  ==_refl, List, [], ◌∷◌, has, length, refl, arith, if◌then◌else◌, some, Ends,
}
use os_lab.Libs.Links.{list_next}
use os_lab.Libs.Links.Ring.{Chain}
use os_lab.Mm.Areas.Defs.{Spaces, contains, search, set_cache, find_vma}
use os_lab.Mm.Areas.Sorted.{IsSpace, area_of, area_of-member, has-area_of}

search_runs :
    (f : ℕ) (list a : Ptr) (xs : List Ptr) (addr : ℕ) (s : Spaces)
    → Chain s.mmap_links a xs list
    → has list xs ≡ false
    → length xs < f
    → search f list a addr s ≡ some (area_of s.vmas addr xs)
unfolding search list_next
search_runs Prim.Native.Nat.zero list a xs addr s c o lt = absurd (omega arith)
search_runs (suc f) list a [] addr s c o lt = rw (c.0, ==_refl list)
search_runs (suc f) list a (x ∷ xs) addr s c o lt =
    let rest = search_runs f list x xs addr s c.2 (ground arith) (omega arith) in
    rw (c.0, ==_ne x list (ground arith), rest) (ground arith)

cache_hit :
    (s : Spaces) (mm : Ptr) (xs : List Ptr) (addr : ℕ)
    → IsSpace s mm xs
    → (not ((s.mms mm).mmap_cache == null) && contains (s.vmas (s.mms mm).mmap_cache) addr) ≡ true
    → area_of s.vmas addr xs ≡ (s.mms mm).mmap_cache
cache_hit s mm xs addr is hit = elim is.cached [
  | inl e ↦ ground arith
  | inr i ↦ area_of-member s.vmas 0 addr xs (s.mms mm).mmap_cache is.areas i (ground arith)
]

find_runs :
    (s : Spaces) (mm : Ptr) (xs : List Ptr) (addr : ℕ)
    → IsSpace s mm xs
    → mm ≢ null
    → find_vma mm addr s
      ≡ some (
        area_of s.vmas addr xs,
        if area_of s.vmas addr xs == null then s else set_cache mm (area_of s.vmas addr xs) s,
      )
unfolding find_vma
find_runs s mm xs addr is ne =
    elim (Bool-cases
      (not ((s.mms mm).mmap_cache == null) && contains (s.vmas (s.mms mm).mmap_cache) addr)) [
        | inl hit ↦ rw (==_ne mm null ne, hit, cache_hit s mm xs addr is hit)
        | inr miss ↦ rw (
          ==_ne mm null ne,
          miss,
          search_runs ((s.mms mm).map_count + 1) mm mm xs addr s is.ring.chain is.ring.distinct.0
              (omega (arith, is.counted)),
        )
      ]

cached-IsSpace :
    (s : Spaces) (mm : Ptr) (xs : List Ptr) (vma : Ptr)
    → IsSpace s mm xs
    → has vma xs ≡ true
    → IsSpace (set_cache mm vma s) mm xs
cached-IsSpace s mm xs vma is i = record {
  ring = is.ring;
  areas = is.areas;
  counted = ground (arith, is.counted);
  no_null = is.no_null;
  cached = inr (ground arith);
}

-- In a sound space, which is not NULL, find_vma returns the area that holds the address, or NULL
-- if none does, whatever its cache holds, and the space stays sound, with the same areas.
pub find_vma_lem :
    (s : Spaces) (mm : Ptr) (xs : List Ptr) (addr : ℕ)
    → IsSpace s mm xs
    → mm ≢ null
    → Ends
        (find_vma mm addr s)
        λ (vma, s'). (vma ≡ area_of s.vmas addr xs) × IsSpace s' mm xs × (s'.vmas ≡ s.vmas)
find_vma_lem s mm xs addr is ne = (
  (
    area_of s.vmas addr xs,
    if area_of s.vmas addr xs == null then s else set_cache mm (area_of s.vmas addr xs) s,
  ),
  find_runs s mm xs addr is ne,
  (
    refl,
    elim (Bool-cases (area_of s.vmas addr xs == null)) [
      | inl e ↦ rw e is
      | inr e ↦ rw e (
          cached-IsSpace s mm xs (area_of s.vmas addr xs) is
            (has-area_of s.vmas addr xs (ground arith)))
    ],
    ground arith,
  ),
)
