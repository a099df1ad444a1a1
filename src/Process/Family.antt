-- ===== src/Process/Family.antt =====
-- The children of a process, the youngest first, as the pointers cptr, optr and yptr tell them.
pub mod Adopt
pub mod Disown
use os_lab.Base.{
  Ptr, null, ◌≡◌, ◌≢◌, true, false, List, [], ◌∷◌, ◌++◌, has, Distinct, refl, arith, head_or,
  last_or,
}
use os_lab.Sched.State.{Proc}

-- From `c` the older siblings are `xs`, and `y` is the next younger one.
abbrev pub Brood : (Ptr → Proc) → Ptr → List Ptr → Ptr → Type 0
Brood procs y [] c = c ≡ null
Brood procs y (x ∷ xs) c =
    (c ≡ x) × (x ≢ null) × ((procs x).yptr ≡ y) × Brood procs x xs (procs x).optr

pub record Children (procs : Ptr → Proc) (p : Ptr) (xs : List Ptr) : Type 0 where
  pub brood : Brood procs null xs (procs p).cptr
  pub distinct : Distinct xs
  pub parent_is : (q : Ptr) → has q xs ≡ true → (procs q).parent ≡ p

-- Only the pointers of the members matter.
pub Brood-frame :
    (f g : Ptr → Proc) (y : Ptr) (xs : List Ptr) (c : Ptr)
    → Brood f y xs c
    → ((q : Ptr) → has q xs ≡ true → (g q).yptr ≡ (f q).yptr)
    → ((q : Ptr) → has q xs ≡ true → (g q).optr ≡ (f q).optr)
    → Brood g y xs c
Brood-frame f g y [] c b ey eo = b
Brood-frame f g y (x ∷ xs) c b ey eo = (
  b.0,
  b.1,
  ground (arith, ey x),
  rw (eo x (ground arith)) (
      Brood-frame f g x xs (f x).optr b.3 (λ q i. ey q (ground arith))
        (λ q i. eo q (ground arith))),
)

pub Brood-first :
    (f : Ptr → Proc) (y : Ptr) (xs : List Ptr) (c : Ptr) → Brood f y xs c → c ≡ head_or null xs
Brood-first f y [] c b = b
Brood-first f y (x ∷ xs) c b = b.0

pub head_has : (xs : List Ptr) → head_or null xs ≢ null → has (head_or null xs) xs ≡ true
head_has [] ne = absurd (ne refl)
head_has (x ∷ xs) ne = ground arith
