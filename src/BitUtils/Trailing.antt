-- ===== src/BitUtils/Trailing.antt =====
-- `ctz` of bit_utils.h, against divisibility by powers of two.
use mathlib.Core.Path.{ap}
use native.Mathlib.Nat.{pow-suc}
use target_utils.Base.{
  ℕ, zero, suc, ◌*◌, ◌/◌, ◌%◌, ◌^◌, ◌≤◌, ◌<◌, ◌≡◌, refl, arith, word32, ◌==◌, ==_iff, ltb,
  Bool-cases, ltb→lt, ltb→le, true, false, inl, inr,
}
use target_utils.BitUtils.{trailing_zeros, ctz}

-- `trailing_zeros` is the exponent of 2 in a number below the fuel's power.
trailing_zeros-divides : (f x : ℕ) → (q : ℕ) × (x ≡ q * 2 ^ trailing_zeros f x)
unfolding trailing_zeros
trailing_zeros-divides zero x = (x, omega arith)
trailing_zeros-divides (suc f) x = elim (Bool-cases (x % 2 == 0)) [
  | inr odd ↦ (x, rw odd (omega arith))
  | inl even ↦
      let t = trailing_zeros-divides f (x / 2) in
      let e : x % 2 ≡ 0 = (==_iff (x % 2) 0).0 even in
      (
        t.0,
        rw even
            (omega (arith, t.1, e, ap (λ (n : ℕ). t.0 * n) (pow-suc 2 (trailing_zeros f (x / 2))))),
      )
]

-- A power of two that divides x has at most that exponent.
trailing_zeros_greatest : (f x k q : ℕ) → 0 < x → x < 2 ^ f → x ≡ q * 2 ^ k → k ≤ trailing_zeros f x
unfolding trailing_zeros
trailing_zeros_greatest f x zero q p h e = omega arith
trailing_zeros_greatest zero x (suc k) q p h e = absurd (omega arith)
trailing_zeros_greatest (suc f) x (suc k) q p h e =
    let twice : x ≡ (q * 2 ^ k) * 2 = omega (arith, ap (λ (n : ℕ). q * n) (pow-suc 2 k)) in
    let even : (x % 2 == 0) ≡ true = (==_iff (x % 2) 0).1 (omega arith) in
    let half : x / 2 ≡ q * 2 ^ k = omega arith in
    rw (even, trailing_zeros)
      (omega (
        arith,
        trailing_zeros_greatest f (x / 2) k q (omega arith) (omega (arith, pow-suc 2 f)) half,
      ))

trailing_zeros-lt : (f x : ℕ) → 0 < x → x < 2 ^ f → trailing_zeros f x < f
unfolding trailing_zeros
trailing_zeros-lt zero x p h = absurd (omega arith)
trailing_zeros-lt (suc f) x p h = elim (Bool-cases (x % 2 == 0)) [
  | inr odd ↦ rw (odd, trailing_zeros) (omega arith)
  | inl even ↦
      let e : x % 2 ≡ 0 = (==_iff (x % 2) 0).0 even in
      rw (even, trailing_zeros)
        (omega (arith, trailing_zeros-lt f (x / 2) (omega arith) (omega (arith, pow-suc 2 f))))
]

ctz_pos : (x : ℕ) → 0 < x → ctz x ≡ trailing_zeros 32 x
unfolding ctz
ctz_pos x p = let nonzero : (x == 0) ≡ false = ground arith in rw nonzero refl

-- On a word that is not 0, `ctz` is below 32, two to its power divides the word, and no greater
-- power of two does.
pub ctz_lem :
    (x : ℕ)
    → 0 < x
    → x < word32
    → ((q : ℕ) × (x ≡ q * 2 ^ ctz x)) × (ctz x < 32) × ((k q : ℕ) → x ≡ q * 2 ^ k → k ≤ ctz x)
ctz_lem x p h = rw (ctz_pos x p) (
  trailing_zeros-divides 32 x,
  trailing_zeros-lt 32 x p h,
  λ k q e. trailing_zeros_greatest 32 x k q p h e,
)

pub ctz-zero : ctz 0 ≡ 32
unfolding ctz
ctz-zero = refl

-- The power of two divides the word also at 0.
pub ctz-divides : (x : ℕ) → x < word32 → (q : ℕ) × (x ≡ q * 2 ^ ctz x)
ctz-divides x h = elim (Bool-cases (ltb 0 x)) [
  | inl pos ↦ (ctz_lem x (ltb→lt 0 x pos) h).0
  | inr none ↦ let gone : x ≡ 0 = omega (arith, ltb→le 0 x none) in (0, rw gone (omega arith))
]

pub ctz-le : (x : ℕ) → x < word32 → ctz x ≤ 32
ctz-le x h = elim (Bool-cases (ltb 0 x)) [
  | inl pos ↦ omega (arith, (ctz_lem x (ltb→lt 0 x pos) h).1)
  | inr none ↦
      let gone : x ≡ 0 = omega (arith, ltb→le 0 x none) in rw (gone, ctz-zero) (omega arith)
]

-- A power of two up to 2^32 that divides a word has at most the exponent `ctz`.
pub ctz_greatest : (x k q : ℕ) → x < word32 → k ≤ 32 → x ≡ q * 2 ^ k → k ≤ ctz x
ctz_greatest x k q h small e = elim (Bool-cases (ltb 0 x)) [
  | inl pos ↦ (ctz_lem x (ltb→lt 0 x pos) h).2 k q e
  | inr none ↦ let gone : x ≡ 0 = omega (arith, ltb→le 0 x none) in rw (gone, ctz-zero) small
]
