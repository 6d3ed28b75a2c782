-- ===== src/BitUtils/Tests.antt =====
-- The logarithms at words, and their theorems there.
use target_utils.Base.{ℕ, ◌*◌, ◌^◌, ◌≤◌, ◌<◌, suc, ◌≡◌, ◌↔◌, refl, arith, true, false}
use target_utils.BitUtils.{
  bit_length, trailing_zeros, log2_uint32_ceil, log2_uint32_floor, ctz, is_uint32_power2, next_pow2,
}
use target_utils.BitUtils.Log.{log2_uint32_ceil_lem, log2_uint32_floor_bounds, next_pow2_lem}
use target_utils.BitUtils.Trailing.{ctz_lem}
use target_utils.BitUtils.Power.{is_uint32_power2_iff}

ceil_of_five : log2_uint32_ceil 5 ≡ 3
unfolding log2_uint32_ceil bit_length
ceil_of_five = refl

floor_of_five : log2_uint32_floor 5 ≡ 2
unfolding log2_uint32_floor bit_length
floor_of_five = refl

ctz_of_twelve : ctz 12 ≡ 2
unfolding ctz trailing_zeros
ctz_of_twelve = refl

power2_of_sixteen : is_uint32_power2 16 ≡ true
unfolding is_uint32_power2
power2_of_sixteen = refl

power2_of_zero : is_uint32_power2 0 ≡ false
unfolding is_uint32_power2
power2_of_zero = refl

next_of_nine : next_pow2 9 ≡ 16
unfolding next_pow2 log2_uint32_ceil bit_length
next_of_nine = refl

log2_uint32_ceil_example :
    (100 ≤ 2 ^ log2_uint32_ceil 100)
    × (2 ^ log2_uint32_ceil 100 < 2 * 100)
    × ((k : ℕ) → 100 ≤ 2 ^ k → log2_uint32_ceil 100 ≤ k)
log2_uint32_ceil_example = log2_uint32_ceil_lem 100 (omega arith) (omega arith)

log2_uint32_floor_bounds_example :
    (2 ^ log2_uint32_floor 100 ≤ 100) × (100 < 2 ^ suc (log2_uint32_floor 100))
log2_uint32_floor_bounds_example = log2_uint32_floor_bounds 100 (omega arith) (omega arith)

ctz_lem_example :
    ((q : ℕ) × (96 ≡ q * 2 ^ ctz 96)) × (ctz 96 < 32) × ((k q : ℕ) → 96 ≡ q * 2 ^ k → k ≤ ctz 96)
ctz_lem_example = ctz_lem 96 (omega arith) (omega arith)

next_pow2_example :
    ((t : ℕ) × (next_pow2 100 ≡ 2 ^ t))
    × (100 ≤ next_pow2 100)
    × (next_pow2 100 ≤ 0x8000_0000)
    × ((k : ℕ) → 100 ≤ 2 ^ k → next_pow2 100 ≤ 2 ^ k)
next_pow2_example = next_pow2_lem 100 (omega arith) (omega arith)

is_uint32_power2_iff_example : (is_uint32_power2 96 ≡ true) ↔ ((t : ℕ) × (96 ≡ 2 ^ t))
is_uint32_power2_iff_example = is_uint32_power2_iff 96 (omega arith)
