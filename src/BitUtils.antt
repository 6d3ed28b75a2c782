-- ===== src/BitUtils.antt =====
-- include/target-utils/bit_utils/bit_utils.h: logarithms and powers of two on `uint32_t`. The
-- compiler's `__builtin_clz` and `__builtin_ctz` count zero bits of a word that is not 0.
pub mod Log
pub mod Trailing
pub mod Digits
pub mod Fields
pub mod Power
mod Tests
use Prim.Native.Nat.{bit_and}
use target_utils.Base.{
  ℕ, zero, suc, ◌-◌, ◌/◌, ◌%◌, ◌^◌, Bool, ◌&&◌, ltb, ◌==◌, if◌then◌else◌, sub32,
}

-- The number of digits of `x` below `2 ^ fuel`.
unfoldable pub bit_length : ℕ → ℕ → ℕ
bit_length zero x = 0
bit_length (suc fuel) x = let rest = suc (bit_length fuel (x / 2)) in if x == 0 then 0 else rest

unfoldable pub builtin_clz : ℕ → ℕ
builtin_clz x = 32 - bit_length 32 x

unfoldable pub trailing_zeros : ℕ → ℕ → ℕ
trailing_zeros zero x = 0
trailing_zeros (suc fuel) x =
    let rest = suc (trailing_zeros fuel (x / 2)) in if x % 2 == 0 then rest else 0

unfoldable pub builtin_ctz : ℕ → ℕ
builtin_ctz x = trailing_zeros 32 x

unfoldable pub log2_uint32_ceil : ℕ → ℕ
unfolding builtin_clz
log2_uint32_ceil x = if ltb 1 x then 32 - builtin_clz (x - 1) else 0

unfoldable pub log2_uint32_floor : ℕ → ℕ
unfolding builtin_clz
log2_uint32_floor x = if x == 0 then 0 else 31 - builtin_clz x

unfoldable pub ctz : ℕ → ℕ
unfolding builtin_ctz
ctz x = if x == 0 then 32 else builtin_ctz x

unfoldable pub is_uint32_power2 : ℕ → Bool
is_uint32_power2 x = ltb 0 x && bit_and x (sub32 x 1) == 0

-- `1 << k` for k below 32.
unfoldable pub next_pow2 : ℕ → ℕ
unfolding log2_uint32_ceil
next_pow2 x = 2 ^ log2_uint32_ceil x
