-- ===== src/BitUtils/Fields.antt =====
-- Fields of binary digits: remainders, left shifts, and a field of a word that is written.
use Prim.Native.Nat.{bit_and}
use native.Mathlib.Nat.{pow-suc, div-div-eq-div-mul, mod-add-div}
use target_utils.Base.{
  ℕ, zero, suc, ◌+◌, ◌-◌, ◌*◌, ◌/◌, ◌%◌, ◌^◌, ◌<◌, ◌≡◌, sym, ap, ◌∙◌, arith, ltb, if◌then◌else◌,
}
use target_utils.BitUtils.Digits.{lowest-bit_and, bit_and-zero, digit, digit-zero}

twice_product : (m q : ℕ) → 2 * m * q ≡ 2 * (m * q)
twice_product m q = grind arith

double_pow : (x m : ℕ) → x * 2 ^ suc m ≡ 2 * (x * 2 ^ m)
double_pow x m = ap (λ (n : ℕ). x * n) (pow-suc 2 m) ∙ out x (2 ^ m)
  where
    out : (x p : ℕ) → x * (p * 2) ≡ 2 * (x * p)
    out x p = grind arith

-- Half of a remainder by an even number.
mod_twice : (x m : ℕ) → (x % (2 * m) / 2 ≡ x / 2 % m) × (x % (2 * m) % 2 ≡ x % 2)
mod_twice x m =
    by_quotient (x / 2 / m)
      (ap (λ n. x % (2 * m) + n) (sym (twice_product m (x / 2 / m)))
        ∙ ap (λ q. x % (2 * m) + 2 * m * q) (div-div-eq-div-mul x 2 m)
        ∙ mod-add-div x (2 * m))
      (mod-add-div (x / 2) m)
  where
    by_quotient :
        (q : ℕ)
        → x % (2 * m) + 2 * (m * q) ≡ x
        → x / 2 % m + m * q ≡ x / 2
        → (x % (2 * m) / 2 ≡ x / 2 % m) × (x % (2 * m) % 2 ≡ x % 2)
    by_quotient q e f = (omega arith, omega arith)

mod_pow : (x n : ℕ) → x % 2 ^ suc n ≡ x % (2 * 2 ^ n)
mod_pow x n = ap (λ (m : ℕ). x % m) (let twice = pow-suc 2 n in omega arith)

pub digit-mod : (n k x : ℕ) → digit k (x % 2 ^ n) ≡ (if ltb k n then digit k x else 0)
digit-mod zero k x =
    let none_left : x % 2 ^ zero ≡ 0 = omega arith in
    ap (digit k) none_left ∙ digit-zero k ∙ ground arith
digit-mod (suc n) zero x = ap (digit 0) (mod_pow x n) ∙ (mod_twice x (2 ^ n)).1 ∙ ground arith
digit-mod (suc n) (suc k) x =
    ap (digit (suc k)) (mod_pow x n)
    ∙ ap (digit k) (mod_twice x (2 ^ n)).0
    ∙ digit-mod n k (x / 2)
    ∙ ground arith

pub digit-mul : (k x m : ℕ) → digit k (x * 2 ^ m) ≡ (if ltb k m then 0 else digit (k - m) x)
digit-mul k x zero =
    let same : x * 2 ^ zero ≡ x = omega arith in
    let all_left : k - 0 ≡ k = omega arith in
    ap (digit k) same ∙ sym (ap (λ n. digit n x) all_left) ∙ ground arith
digit-mul zero x (suc m) = let twice = double_pow x m in ground arith
digit-mul (suc k) x (suc m) =
    let half : x * 2 ^ suc m / 2 ≡ x * 2 ^ m = omega (arith, double_pow x m) in
    let less : suc k - suc m ≡ k - m = omega arith in
    ap (digit k) half
    ∙ digit-mul k x m
    ∙ ap (λ n. if ltb k m then 0 else digit n x) (sym less)
    ∙ ground arith

pub bit_and-lt : (n a b : ℕ) → b < 2 ^ n → bit_and a b < 2 ^ n
bit_and-lt zero a b h =
    let none_left : b ≡ 0 = omega arith in
    omega (arith, ap (bit_and a) none_left, bit_and-zero a a (omega arith))
bit_and-lt (suc n) a b h =
    let twice = pow-suc 2 n in
    omega (arith, lowest-bit_and a b, bit_and-lt n (a / 2) (b / 2) (omega arith))
