-- ===== src/Bitset/Field.antt =====
-- The word operations of `bf_bs_set_word` and `bf_bs_get_word` in src/bitset/bitset.c, digit by digit.
use Prim.Native.Nat.{min, max, bit_and, bit_or}
use native.Mathlib.Nat.{div-le_self, one-le-pow, pow-le-pow_right}
use target_utils.Base.{
  ℕ, ◌+◌, ◌-◌, ◌*◌, ◌/◌, ◌^◌, ◌≤◌, ◌<◌, ◌≡◌, sym, ap, ◌∙◌, arith, Bool, true, false, not, ◌&&◌, ltb,
  lt→ltb, ltb→le, if◌then◌else◌, Bool-cases, ◌⊎◌, inl, inr, word64,
}
use target_utils.BitUtils.Digits.{
  digit, digit-lt, digit-shift, digit-bit_and, digit-bit_or, digit-complement, digit-ones,
  digit-high, bit_and-le, bit_or-lt,
}
use target_utils.BitUtils.Fields.{digit-mod, digit-mul}
use target_utils.Bitset.{complement, shift_left, low_ones}

-- The low digits of a value.
abbrev pub cut_value : ℕ → ℕ → ℕ
cut_value size val = if ltb size 64 then bit_and val (low_ones size) else val

abbrev pub ones_of : ℕ → ℕ
ones_of size = if ltb size 64 then low_ones size else word64 - 1

keep_test : (b : Bool) (d : ℕ) → d < 2 → min d (if b then 1 else 0) ≡ (if b then d else 0)
keep_test true d h = omega arith
keep_test false d h = omega arith

pub digit-cut_value :
    (size val j : ℕ)
    → size ≤ 64
    → val < word64
    → digit j (cut_value size val) ≡ (if ltb j size then digit j val else 0)
digit-cut_value size val j le small = elim (Bool-cases (ltb size 64)) [
  | inl part ↦
      ap (λ b. digit j (if b then bit_and val (low_ones size) else val)) part
      ∙ digit-bit_and j val (low_ones size)
      ∙ ap (min (digit j val)) (digit-ones size j)
      ∙ keep_test (ltb j size) (digit j val) (digit-lt j val)
  | inr whole ↦
      ap (λ b. digit j (if b then bit_and val (low_ones size) else val)) whole
      ∙ by_place (Bool-cases (ltb j size)) (ltb→le size 64 whole)
]
  where
    by_place :
        (ltb j size ≡ true) ⊎ (ltb j size ≡ false)
        → 64 ≤ size
        → digit j val ≡ (if ltb j size then digit j val else 0)
    by_place (inl low) top = sym (ap (λ b. if b then digit j val else 0) low)
    by_place (inr high) top =
        let beyond = ltb→le j size high in
        digit-high 64 j val small (omega arith) ∙ sym (ap (λ b. if b then digit j val else 0) high)

pub digit-ones_of :
    (size j : ℕ) → size ≤ 64 → digit j (ones_of size) ≡ (if ltb j size then 1 else 0)
digit-ones_of size j le = by_size (Bool-cases (ltb size 64))
  where
    by_size :
        (ltb size 64 ≡ true) ⊎ (ltb size 64 ≡ false)
        → digit j (ones_of size) ≡ (if ltb j size then 1 else 0)
    by_size (inl part) =
        ap (λ b. digit j (if b then low_ones size else word64 - 1)) part ∙ digit-ones size j
    by_size (inr whole) =
        let top = ltb→le size 64 whole in
        let same : 64 ≡ size = omega arith in
        ap (λ b. digit j (if b then low_ones size else word64 - 1)) whole
        ∙ digit-ones 64 j
        ∙ ap (λ n. if ltb j n then 1 else 0) same

pub digit-shift_left :
    (k x m : ℕ) → k < 64 → digit k (shift_left x m) ≡ (if ltb k m then 0 else digit (k - m) x)
digit-shift_left k x m h =
    digit-mod 64 k (x * 2 ^ m)
    ∙ ap (λ b. if b then digit k (x * 2 ^ m) else 0) (lt→ltb k 64 h)
    ∙ digit-mul k x m

pick :
    (b c : Bool) (a v : ℕ)
    → a < 2
    → v < 2
    → max (min a (1 - (if b then 0 else if c then 1 else 0))) (if b then 0 else if c then v else 0)
      ≡ (if not b && c then v else a)
pick true c a v p q = omega arith
pick false true a v p q = omega arith
pick false false a v p q = omega arith

module _ (w size val : ℕ) (le : size ≤ 64) (small : val < word64) where
  abbrev pub low_part : ℕ → ℕ
  low_part m =
      bit_or (bit_and w (complement (shift_left (ones_of size) m)))
        (shift_left (cut_value size val) m)

  pub low_part-lt : (m : ℕ) → w < word64 → low_part m < word64
  low_part-lt m h =
      let kept = bit_and-le w w (complement (shift_left (ones_of size) m)) (omega arith) in
      bit_or-lt 64 (bit_and w (complement (shift_left (ones_of size) m)))
        (shift_left (cut_value size val) m) (omega arith) (omega arith)

  -- The field in the word where it begins.
  pub digit-low_part :
      (m k : ℕ)
      → k < 64
      → digit k (low_part m)
        ≡ (if not (ltb k m) && ltb (k - m) size then digit (k - m) val else digit k w)
  digit-low_part m k h =
      let mask = shift_left (ones_of size) m in
      digit-bit_or k (bit_and w (complement mask)) (shift_left (cut_value size val) m)
      ∙ ap (λ d. max d (digit k (shift_left (cut_value size val) m)))
          (digit-bit_and k w (complement mask) ∙ ap (min (digit k w)) cleared)
      ∙ ap (max (min (digit k w) (1 - (if ltb k m then 0 else if ltb (k - m) size then 1 else 0))))
          placed
      ∙ pick (ltb k m) (ltb (k - m) size) (digit k w) (digit (k - m) val) (digit-lt k w)
          (digit-lt (k - m) val)
    where
      cleared :
          digit k (complement (shift_left (ones_of size) m))
          ≡ 1 - (if ltb k m then 0 else if ltb (k - m) size then 1 else 0)
      cleared =
          digit-complement 64 k (shift_left (ones_of size) m) h (omega arith)
          ∙ ap (λ d. 1 - d) (digit-shift_left k (ones_of size) m h)
          ∙ ap (λ d. 1 - (if ltb k m then 0 else d)) (digit-ones_of size (k - m) le)

      placed :
          digit k (shift_left (cut_value size val) m)
          ≡ (if ltb k m then 0 else if ltb (k - m) size then digit (k - m) val else 0)
      placed =
          digit-shift_left k (cut_value size val) m h
          ∙ ap (λ d. if ltb k m then 0 else d) (digit-cut_value size val (k - m) le small)

  abbrev pub high_part : ℕ → ℕ
  high_part spill =
      bit_or (bit_and w (complement (low_ones spill))) (cut_value size val / 2 ^ (size - spill))

  cut_value-lt : cut_value size val < word64
  cut_value-lt = by_size (ltb size 64)
    where
      by_size : (b : Bool) → (if b then bit_and val (low_ones size) else val) < word64
      by_size true = let kept = bit_and-le val val (low_ones size) (omega arith) in omega arith
      by_size false = small

  pub high_part-lt : (spill : ℕ) → w < word64 → high_part spill < word64
  high_part-lt spill h =
      let kept = bit_and-le w w (complement (low_ones spill)) (omega arith) in
      let less = div-le_self (cut_value size val) (2 ^ (size - spill)) in
      let bound = cut_value-lt in
      bit_or-lt 64 (bit_and w (complement (low_ones spill)))
        (cut_value size val / 2 ^ (size - spill)) (omega arith) (omega arith)

  -- What is left of the field in the next word.
  pub digit-high_part :
      (spill k : ℕ)
      → k < 64
      → spill ≤ size
      → spill < 64
      → digit k (high_part spill)
        ≡ (if ltb k spill then digit (size - spill + k) val else digit k w)
  digit-high_part spill k h part low =
      digit-bit_or k (bit_and w (complement (low_ones spill)))
        (cut_value size val / 2 ^ (size - spill))
      ∙ ap (λ d. max d (digit k (cut_value size val / 2 ^ (size - spill))))
          (digit-bit_and k w (complement (low_ones spill)) ∙ ap (min (digit k w)) cleared)
      ∙ ap (max (min (digit k w) (1 - (if ltb k spill then 1 else 0)))) placed
      ∙ pick false (ltb k spill) (digit k w) (digit (size - spill + k) val) (digit-lt k w)
          (digit-lt (size - spill + k) val)
    where
      power_bound : low_ones spill < word64
      power_bound =
          let top = pow-le-pow_right {n = 2} (omega arith) {i = spill} {j = 64} (omega arith) in
          let pos = one-le-pow spill 2 (omega arith) in omega arith

      cleared : digit k (complement (low_ones spill)) ≡ 1 - (if ltb k spill then 1 else 0)
      cleared =
          digit-complement 64 k (low_ones spill) h power_bound
          ∙ ap (λ d. 1 - d) (digit-ones spill k)

      placed :
          digit k (cut_value size val / 2 ^ (size - spill))
          ≡ (if ltb k spill then digit (size - spill + k) val else 0)
      placed =
          let at : ltb (size - spill + k) size ≡ ltb k spill = ground arith in
          digit-shift k (size - spill) (cut_value size val)
          ∙ digit-cut_value size val (size - spill + k) le small
          ∙ ap (λ b. if b then digit (size - spill + k) val else 0) at
