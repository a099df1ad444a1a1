-- ===== src/Base/Int.antt =====
-- Signed integers over the native numbers, and the reading of a 32-bit pattern as an `int32_t`.
use Prim.Native.Nat.{◌+◌, suc, ℕ, ◌-◌, ◌^◌}
use mathlib.Core.Bool.{Bool, false}
use os_lab.Base.Tests.{ltb, ◌==◌, if◌then◌else◌}

-- `negsuc n` is -(n + 1).
pub data ℤ : Type 0 where
  pos : ℕ → ℤ
  negsuc : ℕ → ℤ

abbrev pub minus_one : ℤ
minus_one = negsuc 0

abbrev pub is_minus_one : ℤ → Bool
is_minus_one (pos n) = false
is_minus_one (negsuc n) = n == 0

abbrev pub to_int32 : ℕ → ℤ
to_int32 d = if ltb d (2 ^ 31) then pos d else negsuc (2 ^ 32 - d - 1)

abbrev pub pos_part : ℤ → ℕ
pos_part (pos n) = n
pos_part (negsuc n) = 0

abbrev pub neg_part : ℤ → ℕ
neg_part (pos n) = 0
neg_part (negsuc n) = suc n

abbrev pub ltb_ℤ : ℤ → ℤ → Bool
ltb_ℤ a b = ltb (pos_part a + neg_part b) (pos_part b + neg_part a)
