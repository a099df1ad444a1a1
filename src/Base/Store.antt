-- ===== src/Base/Store.antt =====
-- Fields of objects in memory: an address names an object, and a store of one field is a function
-- of the address. The embedded nodes of an object (`run_link`, `lab6_run_pool`) have its address.
use Prim.Native.Nat.{ℕ}
use mathlib.Core.Path.{◌≡◌}
use mathlib.Core.Logic.{◌≢◌}
use mathlib.Core.Option.{Option, some}
use native.Mathlib.Omega.{arith}
use os_lab.Base.Tests.{◌==◌, if◌then◌else◌}

abbrev pub Ptr : Type 0
Ptr = ℕ

abbrev pub null : Ptr
null = 0

abbrev pub update {ℓ} : {A : Type ℓ} → (Ptr → A) → Ptr → A → Ptr → A
update f p v q = if q == p then v else f q

pub update_self {ℓ} : {A : Type ℓ} (f : Ptr → A) (p : Ptr) (v : A) → update f p v p ≡ v
update_self f p v = ground arith

pub update_ne {ℓ} : {A : Type ℓ} (f : Ptr → A) (p q : Ptr) (v : A) → q ≢ p → update f p v q ≡ f q
update_ne f p q v h = ground arith

-- A run that does not stop, and what holds of its result.
abbrev pub Ends {ℓ} : {A : Type ℓ} → Option A → (A → Type ℓ) → Type ℓ
Ends {A} o P = (a : A) × (o ≡ some a) × P a
