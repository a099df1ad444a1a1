-- ===== src/Libs/Hash.antt =====
-- libs/hash.c
use os_lab.Base.{ℕ, ◌*◌, ◌/◌, ◌%◌, ◌^◌, ◌-◌}

-- GOLDEN_RATIO_PRIME_32
abbrev pub golden_ratio_prime_32 : ℕ
golden_ratio_prime_32 = 2654404609

unfoldable pub hash32 : (val bits : ℕ) → ℕ
hash32 val bits = val * golden_ratio_prime_32 % 2 ^ 32 / 2 ^ (32 - bits)
