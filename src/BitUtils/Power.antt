-- ===== src/BitUtils/Power.antt =====
-- `is_uint32_power2` of include/target-utils/bit_utils/bit_utils.h.
use Prim.Native.Nat.{min, bit_and}
use native.Mathlib.Nat.{pow-suc, one-le-pow}
use target_utils.Base.{
  ℕ, zero, suc, ◌+◌, ◌-◌, ◌*◌, ◌/◌, ◌%◌, ◌^◌, ◌≤◌, ◌<◌, ◌≡◌, ◌↔◌, refl, sym, ap, ◌∙◌, arith, word32,
  true, ◌&&◌, ltb, ◌==◌, ==_iff, Bool-cases, inl, inr, sub32, sub32-eq-sub,
}
use target_utils.BitUtils.{is_uint32_power2}
use target_utils.BitUtils.Digits.{lowest-bit_and}

same_digits : (n a : ℕ) → a ≤ n → bit_and a a ≡ a
same_digits n zero h = refl
same_digits zero (suc a) h = absurd (omega arith)
same_digits (suc n) (suc a) h =
    omega (arith, lowest-bit_and (suc a) (suc a), same_digits n (suc a / 2) (omega arith))

-- A number and the one below it have no digit in common: it is a power of two.
power_of_digits : (n x : ℕ) → x ≤ n → 0 < x → bit_and x (x - 1) ≡ 0 → (t : ℕ) × (x ≡ 2 ^ t)
power_of_digits zero x h pos e = absurd (omega arith)
power_of_digits (suc n) x h pos e = elim (Bool-cases (x % 2 == 0)) [
  | inl even ↦
      let r : x % 2 ≡ 0 = (==_iff (x % 2) 0).0 even in
      let half : (x - 1) / 2 ≡ x / 2 - 1 = omega arith in
      let step =
        lowest-bit_and x (x - 1)
        ∙ ap (λ b. bit_and (x / 2) b * 2 + min (x % 2) ((x - 1) % 2)) half in
      let (t, power) = power_of_digits n (x / 2) (omega arith) (omega arith) (omega arith) in
      (suc t, omega (arith, power, pow-suc 2 t))
  | inr odd ↦
      let r : x % 2 ≡ 1 = ground arith in
      let half : (x - 1) / 2 ≡ x / 2 = omega arith in
      let step =
        lowest-bit_and x (x - 1)
        ∙ ap (λ b. bit_and (x / 2) b * 2 + min (x % 2) ((x - 1) % 2)) half in
      (0, omega (arith, step, same_digits (x / 2) (x / 2) (omega arith)))
]

digits_of_power : (t : ℕ) → bit_and (2 ^ t) (2 ^ t - 1) ≡ 0
digits_of_power zero = refl
digits_of_power (suc t) =
    let pos : 0 < 2 ^ t = one-le-pow t 2 (omega arith) in
    let twice = pow-suc 2 t in
    let a : 2 ^ suc t / 2 ≡ 2 ^ t = omega arith in
    let b : (2 ^ suc t - 1) / 2 ≡ 2 ^ t - 1 = omega arith in
    omega (
      arith,
      lowest-bit_and (2 ^ suc t) (2 ^ suc t - 1),
      ap (λ x. bit_and x ((2 ^ suc t - 1) / 2)) a,
      ap (bit_and (2 ^ t)) b,
      digits_of_power t,
    )

-- `is_uint32_power2` holds of exactly the words that are a power of two.
pub is_uint32_power2_iff :
    (x : ℕ) → x < word32 → (is_uint32_power2 x ≡ true) ↔ ((t : ℕ) × (x ≡ 2 ^ t))
unfolding is_uint32_power2
is_uint32_power2_iff x small = (only_powers, powers)
  where
    below : 0 < x → sub32 x 1 ≡ x - 1
    below pos = sub32-eq-sub x 1 pos small

    only_powers : (ltb 0 x && bit_and x (sub32 x 1) == 0) ≡ true → (t : ℕ) × (x ≡ 2 ^ t)
    only_powers h =
        let pos : 0 < x = ground arith in
        let digits : bit_and x (sub32 x 1) ≡ 0 = ground arith in
        power_of_digits x x (omega arith) pos (ap (bit_and x) (sym (below pos)) ∙ digits)

    powers : (t : ℕ) × (x ≡ 2 ^ t) → (ltb 0 x && bit_and x (sub32 x 1) == 0) ≡ true
    powers (t, e) =
        let pos : 0 < 2 ^ t = one-le-pow t 2 (omega arith) in
        let zero_digits : bit_and x (sub32 x 1) ≡ 0 =
          ap (bit_and x) (below (omega arith))
          ∙ ap (λ n. bit_and n (n - 1)) e
          ∙ digits_of_power t in
        ground arith
