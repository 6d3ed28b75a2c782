-- ===== src/Base/Word.antt =====
-- Machine words: a value is the number that its bits denote, and an operation reduces its result.
-- A C `int` is its 32-bit pattern too, so that -1 is the largest pattern.
use Prim.Native.Nat.{ℕ, ◌+◌, ◌-◌, ◌*◌, ◌%◌, ◌≤◌, ◌<◌}
use mathlib.Core.Path.{◌≡◌}
use native.Mathlib.Omega.{arith}

-- 2 ^ 32 and 2 ^ 64.
abbrev pub word32 : ℕ
word32 = 0x1_0000_0000

abbrev pub word64 : ℕ
word64 = 0x1_0000_0000_0000_0000

-- (uint32_t)-1.
abbrev pub minus_one : ℕ
minus_one = 0xffff_ffff

abbrev pub u32 : ℕ → ℕ
u32 a = a % word32

abbrev pub add32 : ℕ → ℕ → ℕ
add32 a b = (a + b) % word32

abbrev pub sub32 : ℕ → ℕ → ℕ
sub32 a b = (a + (word32 - b % word32)) % word32

abbrev pub mul32 : ℕ → ℕ → ℕ
mul32 a b = (a * b) % word32

abbrev pub add64 : ℕ → ℕ → ℕ
add64 a b = (a + b) % word64

abbrev pub sub64 : ℕ → ℕ → ℕ
sub64 a b = (a + (word64 - b % word64)) % word64

pub sub32-eq-sub : (a b : ℕ) → b ≤ a → a < word32 → sub32 a b ≡ a - b
sub32-eq-sub a b h k = omega arith

pub sub64-eq-sub : (a b : ℕ) → b ≤ a → a < word64 → sub64 a b ≡ a - b
sub64-eq-sub a b h k = omega arith
