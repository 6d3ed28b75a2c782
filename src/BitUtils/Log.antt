-- ===== src/BitUtils/Log.antt =====
-- The logarithms of bit_utils.h and `next_pow2`, against the powers of two.
use native.Mathlib.Nat.{pow-suc, pow-le-pow_right}
use target_utils.Base.{
  ℕ, zero, suc, ◌-◌, ◌*◌, ◌/◌, ◌^◌, ◌≤◌, ◌<◌, ◌≡◌, refl, arith, word32, ◌==◌, ==_iff, ltb,
  Bool-cases, ltb→lt, ltb→le, lt→ltb, false, inl, inr,
}
use target_utils.BitUtils.{bit_length, log2_uint32_ceil, log2_uint32_floor, next_pow2}

lt-bit_length : (f x : ℕ) → x < 2 ^ f → x < 2 ^ bit_length f x
unfolding bit_length
lt-bit_length zero x h = h
lt-bit_length (suc f) x h = elim (Bool-cases (x == 0)) [
  | inl z ↦ rw (z, bit_length) (omega (arith, (==_iff x 0).0 z))
  | inr n ↦
      let half : x / 2 < 2 ^ f = omega (arith, pow-suc 2 f) in
      rw (n, bit_length)
        (omega (arith, lt-bit_length f (x / 2) half, pow-suc 2 (bit_length f (x / 2))))
]

bit_length-zero : (f : ℕ) → bit_length f 0 ≡ 0
unfolding bit_length
bit_length-zero zero = refl
bit_length-zero (suc f) = refl

bit_length-le : (f x : ℕ) → 0 < x → x < 2 ^ f → 2 ^ bit_length f x ≤ 2 * x
unfolding bit_length
bit_length-le zero x p h = absurd (omega arith)
bit_length-le (suc f) x p h = elim (Bool-cases (x == 0)) [
  | inl z ↦ absurd (omega (arith, (==_iff x 0).0 z))
  | inr n ↦
      rw (n, bit_length)
        (elim (Bool-cases (x / 2 == 0)) [
          | inl one ↦
              let gone : x / 2 ≡ 0 = (==_iff (x / 2) 0).0 one in
              rw (gone, bit_length-zero f) (omega arith)
          | inr more ↦
              let pos : 0 < x / 2 = ground arith in
              omega (
                arith,
                pow-suc 2 f,
                pow-suc 2 (bit_length f (x / 2)),
                bit_length-le f (x / 2) pos (omega (arith, pow-suc 2 f)),
              )
        ])
]

bit_length-le-fuel : (f x : ℕ) → bit_length f x ≤ f
unfolding bit_length
bit_length-le-fuel zero x = omega arith
bit_length-le-fuel (suc f) x = ground (arith, bit_length-le-fuel f (x / 2))

pub pow_lt_inv : (a b : ℕ) → 2 ^ a < 2 ^ b → a < b
pow_lt_inv a b h = elim (Bool-cases (ltb a b)) [
  | inl near ↦ ltb→lt a b near
  | inr far ↦
      absurd
        (omega (arith, pow-le-pow_right {n = 2} (omega arith) {i = b} {j = a} (ltb→le a b far)))
]

ceil-bit_length : (x : ℕ) → 1 < x → log2_uint32_ceil x ≡ bit_length 32 (x - 1)
unfolding log2_uint32_ceil
ceil-bit_length x h = rw (lt→ltb 1 x h) (omega (arith, bit_length-le-fuel 32 (x - 1)))

-- `log2_uint32_ceil` rounds up: on a word that is not 0 it is the exponent c with x ≤ 2^c < 2x.
pub log2_uint32_ceil_bounds :
    (x : ℕ) → 0 < x → x < word32 → (x ≤ 2 ^ log2_uint32_ceil x) × (2 ^ log2_uint32_ceil x < 2 * x)
log2_uint32_ceil_bounds x p h = elim (Bool-cases (ltb 1 x)) [
  | inl two ↦
      let more = ltb→lt 1 x two in
      rw (ceil-bit_length x more) (
        omega (arith, lt-bit_length 32 (x - 1) (omega arith)),
        omega (arith, bit_length-le 32 (x - 1) (omega arith) (omega arith)),
      )
  | inr one ↦
      let same : x ≡ 1 = omega (arith, ltb→le 1 x one) in
      rw (same) (unfold log2_uint32_ceil in (omega arith))
]

-- It is at most 32.
pub log2_uint32_ceil-le : (x : ℕ) → log2_uint32_ceil x ≤ 32
unfolding log2_uint32_ceil
log2_uint32_ceil-le x = ground arith

-- On a word that is not 0, `log2_uint32_ceil` is at most each exponent whose power of two reaches
-- the word.
pub log2_uint32_ceil_least : (x k : ℕ) → 0 < x → x < word32 → x ≤ 2 ^ k → log2_uint32_ceil x ≤ k
log2_uint32_ceil_least x k p h r =
    let t = log2_uint32_ceil_bounds x p h in
    let u = pow_lt_inv (log2_uint32_ceil x) (suc k) (omega (arith, t.1, pow-suc 2 k)) in omega arith

-- `log2_uint32_ceil` rounds up: on a word x that is not 0 it is the exponent c with x ≤ 2^c < 2x,
-- and at most each exponent whose power of two reaches the word.
pub log2_uint32_ceil_lem :
    (x : ℕ)
    → 0 < x
    → x < word32
    → (x ≤ 2 ^ log2_uint32_ceil x)
      × (2 ^ log2_uint32_ceil x < 2 * x)
      × ((k : ℕ) → x ≤ 2 ^ k → log2_uint32_ceil x ≤ k)
log2_uint32_ceil_lem x p h =
    let (reached, close) = log2_uint32_ceil_bounds x p h in
    (reached, close, λ k r. log2_uint32_ceil_least x k p h r)

-- `log2_uint32_floor` rounds down: on a word that is not 0 it is the exponent f with 2^f ≤ x < 2^(f
-- + 1).
pub log2_uint32_floor_bounds :
    (x : ℕ)
    → 0 < x
    → x < word32
    → (2 ^ log2_uint32_floor x ≤ x) × (x < 2 ^ suc (log2_uint32_floor x))
unfolding log2_uint32_floor
log2_uint32_floor_bounds x p h =
    by_length (bit_length 32 x) (lt-bit_length 32 x h) (bit_length-le 32 x p h)
      (bit_length-le-fuel 32 x) refl
  where
    by_length :
        (b : ℕ)
        → x < 2 ^ b
        → 2 ^ b ≤ 2 * x
        → b ≤ 32
        → bit_length 32 x ≡ b
        → (2 ^ log2_uint32_floor x ≤ x) × (x < 2 ^ suc (log2_uint32_floor x))
    by_length zero lo hi small e = absurd (omega arith)
    by_length (suc b) lo hi small e =
        let nonzero : (x == 0) ≡ false = ground arith in
        let same : 31 - (32 - suc b) ≡ b = omega arith in
        rw (nonzero, e, same) (omega (arith, pow-suc 2 b), lo)

-- On a word from 1 to 2^31, `next_pow2` is a power of two, at least the word, at most 2^31, and at
-- most each power of two that reaches the word.
pub next_pow2_lem :
    (x : ℕ)
    → 0 < x
    → x ≤ 0x8000_0000
    → ((t : ℕ) × (next_pow2 x ≡ 2 ^ t))
      × (x ≤ next_pow2 x)
      × (next_pow2 x ≤ 0x8000_0000)
      × ((k : ℕ) → x ≤ 2 ^ k → next_pow2 x ≤ 2 ^ k)
unfolding next_pow2
next_pow2_lem x p h =
    let monotone = λ (k : ℕ) (r : x ≤ 2 ^ k).
      pow-le-pow_right {n = 2} (omega arith) {i = log2_uint32_ceil x} {j = k}
        (log2_uint32_ceil_least x k p (omega arith) r) in
    (
      (log2_uint32_ceil x, refl),
      (log2_uint32_ceil_bounds x p (omega arith)).0,
      monotone 31 h,
      monotone,
    )
