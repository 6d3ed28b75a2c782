-- ===== src/BitUtils/Digits.antt =====
-- The binary digits of a number, and what `&`, `|`, `~` and shifts do to them.
use Prim.Native.Nat.{min, max, bit_and, bit_or, digits, bit_and-bitwise, bit_or-bitwise}
use native.Mathlib.Nat.{pow-suc, one-le-pow, div-div-eq-div-mul}
use target_utils.BitUtils.{trailing_zeros}
use target_utils.Base.{
  ℕ, zero, suc, ◌+◌, ◌-◌, ◌*◌, ◌/◌, ◌%◌, ◌^◌, ◌≤◌, ◌<◌, ◌≡◌, refl, sym, ap, ◌∙◌, arith, ltb, ◌==◌,
  ==_iff, if◌then◌else◌, Bool-cases, inl, inr,
}

module _ (rest : ℕ → ℕ) (f : ℕ → ℕ → ℕ) where
  -- An operation digit by digit, on a count of digits.
  abbrev by_digits : ℕ → ℕ → ℕ → ℕ
  by_digits count a b = digits rest f count a b

  by_digits_count : (n m a b : ℕ) → a ≤ n → a ≤ m → by_digits n a b ≡ by_digits m a b
  by_digits_count n m zero b p q = by_counts n m
    where
      by_counts : (n m : ℕ) → by_digits n zero b ≡ by_digits m zero b
      by_counts zero zero = refl
      by_counts zero (suc m) = refl
      by_counts (suc n) zero = refl
      by_counts (suc n) (suc m) = refl
  by_digits_count zero m (suc a) b p q = absurd (omega arith)
  by_digits_count (suc n) zero (suc a) b p q = absurd (omega arith)
  by_digits_count (suc n) (suc m) (suc a) b p q =
      ap (λ x. x * 2 + f (suc a % 2) (b % 2))
        (by_digits_count n m (suc a / 2) (b / 2) (omega arith) (omega arith))

-- The lowest digit of each number apart.
pub lowest-bit_and : (a b : ℕ) → bit_and a b ≡ bit_and (a / 2) (b / 2) * 2 + min (a % 2) (b % 2)
lowest-bit_and zero b = omega (arith, bit_and-bitwise 0 b, bit_and-bitwise 0 (b / 2))
lowest-bit_and (suc a) b = omega (
  arith,
  bit_and-bitwise (suc a) b,
  bit_and-bitwise (suc a / 2) (b / 2),
  by_digits_count (λ b. 0) min a (suc a / 2) (suc a / 2) (b / 2) (omega arith) (omega arith),
)

pub lowest-bit_or : (a b : ℕ) → bit_or a b ≡ bit_or (a / 2) (b / 2) * 2 + max (a % 2) (b % 2)
lowest-bit_or zero b = omega (arith, bit_or-bitwise 0 b, bit_or-bitwise 0 (b / 2))
lowest-bit_or (suc a) b = omega (
  arith,
  bit_or-bitwise (suc a) b,
  bit_or-bitwise (suc a / 2) (b / 2),
  by_digits_count (λ b. b) max a (suc a / 2) (suc a / 2) (b / 2) (omega arith) (omega arith),
)

abbrev pub digit : ℕ → ℕ → ℕ
digit zero x = x % 2
digit (suc i) x = digit i (x / 2)

pub digit-lt : (i x : ℕ) → digit i x < 2
digit-lt zero x = omega arith
digit-lt (suc i) x = digit-lt i (x / 2)

pub digit-shift : (i k x : ℕ) → digit i (x / 2 ^ k) ≡ digit (k + i) x
digit-shift i zero x =
    let whole : x / 2 ^ zero ≡ x = omega arith in
    let same : i ≡ zero + i = omega arith in ap (digit i) whole ∙ ap (λ n. digit n x) same
digit-shift i (suc k) x =
    let halves : x / 2 ^ suc k ≡ x / 2 / 2 ^ k =
      ap (λ (n : ℕ). x / n) (pow-suc 2 k ∙ twice (2 ^ k)) ∙ sym (div-div-eq-div-mul x 2 (2 ^ k)) in
    let same : suc (k + i) ≡ suc k + i = omega arith in
    ap (digit i) halves ∙ digit-shift i k (x / 2) ∙ ap (λ n. digit n x) same
  where
    twice : (n : ℕ) → n * 2 ≡ 2 * n
    twice n = omega arith

pub digit-bit_and : (i a b : ℕ) → digit i (bit_and a b) ≡ min (digit i a) (digit i b)
digit-bit_and zero a b = omega (arith, lowest-bit_and a b)
digit-bit_and (suc i) a b =
    let half : bit_and a b / 2 ≡ bit_and (a / 2) (b / 2) = omega (arith, lowest-bit_and a b) in
    ap (digit i) half ∙ digit-bit_and i (a / 2) (b / 2)

pub digit-bit_or : (i a b : ℕ) → digit i (bit_or a b) ≡ max (digit i a) (digit i b)
digit-bit_or zero a b = omega (arith, lowest-bit_or a b)
digit-bit_or (suc i) a b =
    let half : bit_or a b / 2 ≡ bit_or (a / 2) (b / 2) = omega (arith, lowest-bit_or a b) in
    ap (digit i) half ∙ digit-bit_or i (a / 2) (b / 2)

pub digit-zero : (i : ℕ) → digit i 0 ≡ 0
digit-zero zero = refl
digit-zero (suc i) = digit-zero i

pub digit-pow : (i k : ℕ) → digit i (2 ^ k) ≡ (if i == k then 1 else 0)
digit-pow zero zero = refl
digit-pow zero (suc k) = let twice = pow-suc 2 k in ground arith
digit-pow (suc i) zero = digit-zero i ∙ ground arith
digit-pow (suc i) (suc k) =
    let half : 2 ^ suc k / 2 ≡ 2 ^ k = omega (arith, pow-suc 2 k) in
    ap (digit i) half ∙ digit-pow i k ∙ ground arith

-- `~x` in a word of `n` digits.
pub digit-complement : (n i x : ℕ) → i < n → x < 2 ^ n → digit i (2 ^ n - 1 - x) ≡ 1 - digit i x
digit-complement zero i x p q = absurd (omega arith)
digit-complement (suc n) zero x p q = omega (arith, pow-suc 2 n)
digit-complement (suc n) (suc i) x p q =
    let half : (2 ^ suc n - 1 - x) / 2 ≡ 2 ^ n - 1 - x / 2 = omega (arith, pow-suc 2 n) in
    ap (digit i) half ∙ digit-complement n i (x / 2) (omega arith) (omega (arith, pow-suc 2 n))

-- Numbers with the same digits are the same.
pub digits_eq :
    (n x y : ℕ) → x < 2 ^ n → y < 2 ^ n → ((i : ℕ) → i < n → digit i x ≡ digit i y) → x ≡ y
digits_eq zero x y p q h = omega arith
digits_eq (suc n) x y p q h =
    let twice = pow-suc 2 n in
    let high =
      digits_eq n (x / 2) (y / 2) (omega arith) (omega arith) (λ i r. h (suc i) (omega arith)) in
    let low : x % 2 ≡ y % 2 = h 0 (omega arith) in omega arith

pub bit_or-lt : (n a b : ℕ) → a < 2 ^ n → b < 2 ^ n → bit_or a b < 2 ^ n
bit_or-lt zero a b p q =
    let left : a ≡ 0 = omega arith in
    let right : b ≡ 0 = omega arith in
    let none_left : bit_or a b ≡ 0 = ap (bit_or a) right ∙ ap (λ n. bit_or n 0) left in omega arith
bit_or-lt (suc n) a b p q =
    let twice = pow-suc 2 n in
    omega (arith, lowest-bit_or a b, bit_or-lt n (a / 2) (b / 2) (omega arith) (omega arith))

pub bit_and-le : (n a b : ℕ) → a ≤ n → bit_and a b ≤ a
bit_and-le n zero b h = omega (arith, bit_and-bitwise 0 b)
bit_and-le zero (suc a) b h = absurd (omega arith)
bit_and-le (suc n) (suc a) b h =
    omega (arith, lowest-bit_and (suc a) b, bit_and-le n (suc a / 2) (b / 2) (omega arith))

pub bit_and-zero : (n x : ℕ) → x ≤ n → bit_and x 0 ≡ 0
bit_and-zero n zero h = refl
bit_and-zero zero (suc x) h = absurd (omega arith)
bit_and-zero (suc n) (suc x) h =
    omega (arith, lowest-bit_and (suc x) 0, bit_and-zero n (suc x / 2) (omega arith))

-- `x & 1` is the lowest digit.
pub bit_and-one : (x : ℕ) → bit_and x 1 ≡ x % 2
bit_and-one x = omega (arith, lowest-bit_and x 1, bit_and-zero (x / 2) (x / 2) (omega arith))

-- `x & (1 << k)` is 0 where the digit is.
pub bit_and-pow : (k x : ℕ) → bit_and x (2 ^ k) ≡ digit k x * 2 ^ k
bit_and-pow zero x = omega (arith, bit_and-one x)
bit_and-pow (suc k) x =
    let twice = pow-suc 2 k in
    let half : 2 ^ suc k / 2 ≡ 2 ^ k = omega arith in
    omega (
      arith,
      lowest-bit_and x (2 ^ suc k),
      ap (bit_and (x / 2)) half,
      bit_and-pow k (x / 2),
      ap (λ (n : ℕ). digit k (x / 2) * n) twice,
    )

-- The digits of `(1 << n) - 1`, and those beyond a bound.
pub digit-ones : (n k : ℕ) → digit k (2 ^ n - 1) ≡ (if ltb k n then 1 else 0)
digit-ones zero k = digit-zero k ∙ ground arith
digit-ones (suc n) zero =
    let pos : 0 < 2 ^ n = one-le-pow n 2 (omega arith) in let twice = pow-suc 2 n in ground arith
digit-ones (suc n) (suc k) =
    let pos : 0 < 2 ^ n = one-le-pow n 2 (omega arith) in
    let half : (2 ^ suc n - 1) / 2 ≡ 2 ^ n - 1 = omega (arith, pow-suc 2 n) in
    ap (digit k) half ∙ digit-ones n k ∙ ground arith

pub digit-high : (n k x : ℕ) → x < 2 ^ n → n ≤ k → digit k x ≡ 0
digit-high zero k x h le =
    let none_left : x ≡ 0 = omega arith in ap (digit k) none_left ∙ digit-zero k
digit-high (suc n) zero x h le = absurd (omega arith)
digit-high (suc n) (suc k) x h le =
    digit-high n k (x / 2) (omega (arith, pow-suc 2 n)) (omega arith)

-- The lowest digit that is 1.
pub lowest_one :
    (f x : ℕ)
    → 0 < x
    → x < 2 ^ f
    → (trailing_zeros f x < f)
      × (digit (trailing_zeros f x) x ≡ 1)
      × ((k : ℕ) → k < trailing_zeros f x → digit k x ≡ 0)
unfolding trailing_zeros
lowest_one zero x pos h = absurd (omega arith)
lowest_one (suc f) x pos h = elim (Bool-cases (x % 2 == 0)) [
  | inr odd ↦
      let r : x % 2 ≡ 1 = ground arith in
      rw (odd, trailing_zeros) (omega arith, r, λ k p. absurd (omega arith))
  | inl even ↦
      let twice = pow-suc 2 f in
      let r : x % 2 ≡ 0 = (==_iff (x % 2) 0).0 even in
      let (low, one, zeros) = lowest_one f (x / 2) (omega arith) (omega arith) in
      rw (even, trailing_zeros) (omega arith, one, below r zeros)
]
  where
    below :
        x % 2 ≡ 0
        → ((k : ℕ) → k < trailing_zeros f (x / 2) → digit k (x / 2) ≡ 0)
        → (k : ℕ) → k < suc (trailing_zeros f (x / 2))
        → digit k x ≡ 0
    below r zeros zero p = r
    below r zeros (suc k) p = zeros k (omega arith)
