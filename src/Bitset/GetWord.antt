-- ===== src/Bitset/GetWord.antt =====
-- `bf_bs_get_word` of src/bitset/bitset.c: the field that it reads, also after `bf_bs_set_word`.
use Prim.Native.Nat.{max, bit_and, bit_or}
use native.Mathlib.Nat.{div-le_self, one-le-pow}
use target_utils.Base.{
  ℕ, ◌+◌, ◌-◌, ◌/◌, ◌%◌, ◌^◌, ◌≤◌, ◌<◌, ◌≡◌, ap, ◌∙◌, arith, Bool, true, false, ltb, ltb→lt, ltb→le,
  ◌==◌, ==_iff, if◌then◌else◌, Bool-cases, ◌⊎◌, inl, inr, word64,
}
use target_utils.Base.Run.{Run, ok, ◌>>=◌, ◌>>◌, Returns}
use target_utils.BitUtils.Digits.{
  digit, digit-lt, digit-shift, digit-bit_and, digit-bit_or, digit-ones, digit-high, bit_or-lt,
}
use target_utils.BitUtils.Fields.{bit_and-lt}
use target_utils.Bitset.{Bitset, word_at, low_ones, shift_left}
use target_utils.Bitset.Range.{size_asserts, spilled, bf_bs_get_word}
use target_utils.Bitset.Bit.{IsBitset, bit_at, passes}
use target_utils.Bitset.Field.{digit-shift_left}
use target_utils.Bitset.Word.{read_word, size, size_lem, sizes, first_inside, second_inside}

-- The number whose digits are the bits of the field.
abbrev pub FieldRead : Bitset → ℕ → ℕ → ℕ → Type 0
FieldRead bs position size r =
    (r < 2 ^ size) × ((k : ℕ) → k < size → digit k r ≡ bit_at bs (position + k))

max_high : (a b : ℕ) → a ≡ 0 → max a b ≡ b
max_high a b e = omega arith

max_low : (a b : ℕ) → b ≡ 0 → max a b ≡ a
max_low a b e = omega arith

module _ (asserts : Bool) (bs : Bitset) (valid : IsBitset bs) (position asked : ℕ)
    (inside : position < bs.width) (some_bits : 0 < asked) (le : asked ≤ 64) where
  abbrev n : ℕ
  n = size asserts bs valid position asked inside some_bits le

  abbrev i : ℕ
  i = position / 64

  abbrev s : ℕ
  s = position % 64

  abbrev first : ℕ
  first = bs.words i

  fits : (0 < n) × (n ≤ 64) × (position + n ≤ bs.width)
  fits = size_lem asserts bs valid position asked inside some_bits le

  -- A word of 64 bits with the bits of the field below its size.
  abbrev IsGathered : ℕ → Type 0
  IsGathered w = (w < word64) × ((k : ℕ) → k < n → digit k w ≡ bit_at bs (position + k))

  near_bit : (k : ℕ) → s + k < 64 → digit (s + k) first ≡ bit_at bs (position + k)
  near_bit k low =
      let place : s + k ≡ (position + k) % 64 = omega arith in
      let word : i ≡ (position + k) / 64 = omega arith in
      ap (λ p. digit p first) place ∙ ap (λ j. digit ((position + k) % 64) (bs.words j)) word

  far_bit :
      (k : ℕ)
      → k < 64
      → 64 ≤ s + k
      → digit (k - (64 - s)) (bs.words (i + 1)) ≡ bit_at bs (position + k)
  far_bit k top high =
      let place : k - (64 - s) ≡ (position + k) % 64 = omega arith in
      let word : i + 1 ≡ (position + k) / 64 = omega arith in
      ap (λ p. digit p (bs.words (i + 1))) place
      ∙ ap (λ j. digit ((position + k) % 64) (bs.words j)) word

  shifted-lt : first / 2 ^ s < word64
  shifted-lt = let h = valid.bounded i in let less = div-le_self first (2 ^ s) in omega arith

  aligned : (s == 0) ≡ true → IsGathered first
  aligned e =
      let none_off : s ≡ 0 = (==_iff s 0).0 e in
      (
        valid.bounded i,
        λ k below.
            let bounds = fits in
            let same : k ≡ s + k = omega arith in
            ap (λ p. digit p first) same ∙ near_bit k (omega arith),
      )

  one_word : s + n ≤ 64 → IsGathered (first / 2 ^ s)
  one_word short = (shifted-lt, λ k below. digit-shift k s first ∙ near_bit k (omega arith))

  abbrev joined : ℕ
  joined = bit_or (first / 2 ^ s) (shift_left (bs.words (i + 1)) (n - (s + n - 64)))

  two_words : 64 < s + n → IsGathered joined
  two_words spills = (
    bit_or-lt 64 (first / 2 ^ s) (shift_left (bs.words (i + 1)) (n - (s + n - 64))) shifted-lt
        (omega arith),
    λ k below.
        let bounds = fits in
        let gap : n - (s + n - 64) ≡ 64 - s = omega arith in
        digit-bit_or k (first / 2 ^ s) (shift_left (bs.words (i + 1)) (n - (s + n - 64)))
        ∙ ap (λ d. max d (digit k (shift_left (bs.words (i + 1)) (n - (s + n - 64)))))
            (digit-shift k s first)
        ∙ ap (max (digit (s + k) first)) (
            ap (λ g. digit k (shift_left (bs.words (i + 1)) g)) gap
            ∙ digit-shift_left k (bs.words (i + 1)) (64 - s) (omega arith))
        ∙ by_side k (omega arith) (Bool-cases (ltb k (64 - s))),
  )
    where
      by_side :
          (k : ℕ)
          → k < 64
          → (ltb k (64 - s) ≡ true) ⊎ (ltb k (64 - s) ≡ false)
          → max
              (digit (s + k) first)
              (if ltb k (64 - s) then 0 else digit (k - (64 - s)) (bs.words (i + 1)))
            ≡ bit_at bs (position + k)
      by_side k top (inl near) =
          let low = ltb→lt k (64 - s) near in
          max_low (digit (s + k) first)
            (if ltb k (64 - s) then 0 else digit (k - (64 - s)) (bs.words (i + 1)))
            (ap (λ b. if b then 0 else digit (k - (64 - s)) (bs.words (i + 1))) near)
          ∙ near_bit k (omega arith)
      by_side k top (inr far) =
          let high = ltb→le k (64 - s) far in
          max_high (digit (s + k) first)
            (if ltb k (64 - s) then 0 else digit (k - (64 - s)) (bs.words (i + 1)))
            (digit-high 64 (s + k) first (valid.bounded i) (omega arith))
          ∙ ap (λ b. if b then 0 else digit (k - (64 - s)) (bs.words (i + 1))) far
          ∙ far_bit k top (omega arith)

  -- `spilled` from its tests on.
  abbrev gathering : Bool → Bool → Run ℕ
  gathering none_off spills = elim none_off [
    | true ↦ ok first
    | false ↦ elim spills [
      | false ↦ ok (first / 2 ^ s)
      | true ↦ do
        word2 ← word_at bs (i + 1)
        ok (bit_or (first / 2 ^ s) (shift_left word2 (n - (s + n - 64))))
    ]
  ]

  spilled-IsGathered : Returns (spilled asserts bs position n first) IsGathered
  spilled-IsGathered = by_test (Bool-cases (s == 0)) (Bool-cases (ltb 64 (s + n)))
    where
      by_test :
          ((s == 0) ≡ true) ⊎ ((s == 0) ≡ false)
          → (ltb 64 (s + n) ≡ true) ⊎ (ltb 64 (s + n) ≡ false)
          → Returns (gathering (s == 0) (ltb 64 (s + n))) IsGathered
      by_test (inl none_off) c =
          (first, ap (λ b. gathering b (ltb 64 (s + n))) none_off, aligned none_off)
      by_test (inr off) (inr short) = (
        first / 2 ^ s,
        ap (λ b. gathering b (ltb 64 (s + n))) off ∙ ap (gathering false) short,
        one_word (ltb→le 64 (s + n) short),
      )
      by_test (inr off) (inl spills) =
          let long = ltb→lt 64 (s + n) spills in
          (
            joined,
            ap (λ b. gathering b (ltb 64 (s + n))) off
                ∙ ap (gathering false) spills
                ∙ read_word bs (i + 1)
                    (λ word2. ok (bit_or (first / 2 ^ s) (shift_left word2 (n - (s + n - 64)))))
                    (second_inside asserts bs valid position asked inside some_bits le long),
            two_words long,
          )

  abbrev masking : ℕ → Run ℕ
  masking word = ok (if ltb n 64 then bit_and word (low_ones n) else word)

  masked_word :
      (w : ℕ)
      → IsGathered w
      → FieldRead bs position n (if ltb n 64 then bit_and w (low_ones n) else w)
  masked_word w (small, bits) = by_size (Bool-cases (ltb n 64))
    where
      keep : (k : ℕ) → k < n → digit k (bit_and w (low_ones n)) ≡ digit k w
      keep k below = digit-bit_and k w (low_ones n) ∙ ground (arith, digit-ones n k, digit-lt k w)

      by_size :
          (ltb n 64 ≡ true) ⊎ (ltb n 64 ≡ false)
          → FieldRead bs position n (if ltb n 64 then bit_and w (low_ones n) else w)
      by_size (inl part) =
          let pos = one-le-pow n 2 (omega arith) in
          rw (part)
            (bit_and-lt n w (low_ones n) (omega arith), λ k below. keep k below ∙ bits k below)
      by_size (inr whole) =
          let top = ltb→le n 64 whole in
          let bounds = fits in
          let same : 2 ^ 64 ≡ 2 ^ n = ap (λ (j : ℕ). 2 ^ j) (let e : 64 ≡ n = omega arith in e) in
          rw (whole) (omega arith, bits)

  pub bf_bs_get_word-FieldRead :
      Returns (bf_bs_get_word asserts bs position asked) (FieldRead bs position n)
  unfolding bf_bs_get_word
  bf_bs_get_word-FieldRead =
      let (w, run, gathered) = spilled-IsGathered in
      (
        (if ltb n 64 then bit_and w (low_ones n) else w),
        ap
              (λ r. do
                r
                size_asserts asserts asked
                first ← word_at bs i
                word ← spilled asserts bs position n first
                masking word)
              (passes asserts bs valid position inside)
            ∙ ap
                (λ r. do
                  r
                  first ← word_at bs i
                  word ← spilled asserts bs position n first
                  masking word)
                (sizes asserts bs valid position asked inside some_bits le)
            ∙ read_word bs i (λ first. do word ← spilled asserts bs position n first; masking word)
                (first_inside asserts bs valid position asked inside some_bits le)
            ∙ ap (λ r. do word ← r; masking word) run,
        masked_word w gathered,
      )
