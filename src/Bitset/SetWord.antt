-- ===== src/Bitset/SetWord.antt =====
-- `bf_bs_set_word` of src/bitset/bitset.c: the bits of the field are written, and no others.
use target_utils.Base.{
  ℕ, ◌+◌, ◌-◌, ◌/◌, ◌%◌, ◌≤◌, ◌<◌, ◌≡◌, refl, sym, ap, ◌∙◌, arith, Bool, true, false, ltb, ltb→lt,
  ltb→le, ◌==◌, ==_iff, if◌then◌else◌, Bool-cases, ne→==, inl, inr, word64,
}
use target_utils.Base.Run.{Run, ok, ◌>>=◌, ◌>>◌, Returns}
use target_utils.BitUtils.Digits.{digit}
use target_utils.Bitset.{Bitset, word_at, put_word}
use target_utils.Bitset.Range.{size_asserts, bf_bs_set_word}
use target_utils.Bitset.Bit.{IsBitset, bit_at, passes}
use target_utils.Bitset.Field.{
  low_part, low_part-lt, digit-low_part, high_part, high_part-lt, digit-high_part,
}
use target_utils.Bitset.Word.{
  with_word, read_word, write_word, with_word-IsBitset, bit_at-with_word, in_field, field_bit,
  first_test, first_place, second_test, second_place, outside_first, outside_both, size, size_lem,
  sizes, first_inside, second_inside,
}

-- The set after the call.
abbrev pub FieldWritten : Bitset → ℕ → ℕ → ℕ → Bitset → Type 0
FieldWritten bs position size val bs' =
    IsBitset bs'
    × (bs'.width ≡ bs.width)
    × ((k : ℕ) → bit_at bs' k ≡ field_bit bs position size val k)

module _ (asserts : Bool) (bs : Bitset) (valid : IsBitset bs) (position asked val : ℕ)
    (inside : position < bs.width) (some_bits : 0 < asked) (le : asked ≤ 64)
    (small : val < word64) where
  abbrev n : ℕ
  n = size asserts bs valid position asked inside some_bits le

  abbrev i : ℕ
  i = position / 64

  abbrev s : ℕ
  s = position % 64

  fits : (0 < n) × (n ≤ 64) × (position + n ≤ bs.width)
  fits = size_lem asserts bs valid position asked inside some_bits le

  abbrev first_word : ℕ
  first_word = low_part (bs.words i) n val fits.1 small s

  abbrev once : Bitset
  once = with_word bs i first_word

  abbrev spill : ℕ
  spill = s + n - 64

  abbrev second_word : ℕ
  second_word = high_part (once.words (i + 1)) n val fits.1 small spill

  abbrev twice : Bitset
  twice = with_word once (i + 1) second_word

  -- The call from its test of the spill on.
  abbrev spilling : Bool → Bitset → Run Bitset
  spilling spills bs₁ = elim spills [
    | false ↦ ok bs₁
    | true ↦ do
      w₂ ← word_at bs₁ (i + 1)
      put_word bs₁ (i + 1) (high_part w₂ n val fits.1 small spill)
  ]

  abbrev writing : ℕ → Run Bitset
  writing w = do
    bs₁ ← put_word bs i (low_part w n val fits.1 small s)
    spilling (ltb 64 (s + n)) bs₁

  abbrev reading : Run Bitset
  reading = do w ← word_at bs i; writing w

  first_run : bf_bs_set_word asserts bs position asked val ≡ spilling (ltb 64 (s + n)) once
  unfolding bf_bs_set_word
  first_run =
      let here = first_inside asserts bs valid position asked inside some_bits le in
      ap (λ r. do r; size_asserts asserts asked; reading) (passes asserts bs valid position inside)
      ∙ ap (λ r. do r; reading) (sizes asserts bs valid position asked inside some_bits le)
      ∙ read_word bs i writing here
      ∙ ap (λ r. do bs₁ ← r; spilling (ltb 64 (s + n)) bs₁) (write_word bs i first_word here)

  once-IsBitset : IsBitset once
  once-IsBitset =
      with_word-IsBitset bs i first_word valid
        (low_part-lt (bs.words i) n val fits.1 small s (valid.bounded i))

  -- A bit of the first word.
  first_bit : (k : ℕ) → (i == k / 64) ≡ true → bit_at once k ≡ field_bit bs position n val k
  first_bit k here =
      let same : i ≡ k / 64 = (==_iff i (k / 64)).0 here in
      bit_at-with_word bs i first_word k
      ∙ ap (λ b. if b then digit (k % 64) first_word else bit_at bs k) here
      ∙ digit-low_part (bs.words i) n val fits.1 small s (k % 64) (omega arith)
      ∙ ap (λ b. if b then digit (k % 64 - s) val else digit (k % 64) (bs.words i))
          (first_test position n k same)
      ∙ ap (λ p. if in_field position n k then digit p val else digit (k % 64) (bs.words i))
          (first_place position n k same)
      ∙ ap
          (λ j.
            if in_field position n k then digit (k - position) val else digit (k % 64) (bs.words j))
          same

  kept_bit : (k : ℕ) → (i == k / 64) ≡ false → bit_at once k ≡ bit_at bs k
  kept_bit k other =
      bit_at-with_word bs i first_word k
      ∙ ap (λ b. if b then digit (k % 64) first_word else bit_at bs k) other

  outside_bit :
      (k : ℕ) → in_field position n k ≡ false → bit_at bs k ≡ field_bit bs position n val k
  outside_bit k out = sym (ap (λ b. if b then digit (k - position) val else bit_at bs k) out)

  one_word : s + n ≤ 64 → FieldWritten bs position n val once
  one_word short = (
    once-IsBitset,
    refl,
    λ k. elim (Bool-cases (i == k / 64)) [
      | inl here ↦ first_bit k here
      | inr other ↦ kept_bit k other ∙ outside_bit k (outside_first position n k other short)
    ],
  )

  twice_bit :
      (k : ℕ)
      → bit_at twice k ≡ (if i + 1 == k / 64 then digit (k % 64) second_word else bit_at once k)
  twice_bit k = bit_at-with_word once (i + 1) second_word k

  next_word : once.words (i + 1) ≡ bs.words (i + 1)
  next_word =
      ap (λ b. if b then first_word else bs.words (i + 1)) (ne→== i (i + 1) (λ e. omega arith))

  second_bit :
      (k : ℕ)
      → 64 < s + n
      → (i + 1 == k / 64) ≡ true
      → bit_at twice k ≡ field_bit bs position n val k
  second_bit k spills here =
      let same : i + 1 ≡ k / 64 = (==_iff (i + 1) (k / 64)).0 here in
      let w₂ = bs.words (i + 1) in
      let bounds = fits in
      twice_bit k
      ∙ ap (λ b. if b then digit (k % 64) second_word else bit_at once k) here
      ∙ digit-high_part (once.words (i + 1)) n val fits.1 small spill (k % 64) (omega arith)
          (omega arith) (omega arith)
      ∙ ap (λ b. if b then digit (n - spill + k % 64) val else digit (k % 64) (once.words (i + 1)))
          (second_test position n k same spills)
      ∙ ap (λ p. if in_field position n k then digit p val else digit (k % 64) (once.words (i + 1)))
          (second_place position n k same spills)
      ∙ ap (λ w. if in_field position n k then digit (k - position) val else digit (k % 64) w)
          next_word
      ∙ ap
          (λ j.
            if in_field position n k then digit (k - position) val else digit (k % 64) (bs.words j))
          same

  two_words : 64 < s + n → FieldWritten bs position n val twice
  two_words spills = (
    with_word-IsBitset once (i + 1) second_word once-IsBitset (
        high_part-lt (once.words (i + 1)) n val fits.1 small spill (once-IsBitset.bounded (i + 1))),
    refl,
    λ k. elim (Bool-cases (i + 1 == k / 64)) [
      | inl next ↦ second_bit k spills next
      | inr other ↦
          twice_bit k
          ∙ ap (λ b. if b then digit (k % 64) second_word else bit_at once k) other
          ∙ elim (Bool-cases (i == k / 64)) [
            | inl here ↦ first_bit k here
            | inr apart ↦
                kept_bit k apart ∙ outside_bit k (outside_both position n k apart other fits.1)
          ]
    ],
  )

  pub bf_bs_set_word-FieldWritten :
      Returns (bf_bs_set_word asserts bs position asked val) (FieldWritten bs position n val)
  bf_bs_set_word-FieldWritten = elim (Bool-cases (ltb 64 (s + n))) [
    | inr short ↦
        (once, first_run ∙ ap (λ b. spilling b once) short, one_word (ltb→le 64 (s + n) short))
    | inl spills ↦
        let long = ltb→lt 64 (s + n) spills in
        let there = second_inside asserts bs valid position asked inside some_bits le long in
        (
          twice,
          first_run
              ∙ ap (λ b. spilling b once) spills
              ∙ read_word once (i + 1)
                  (λ w₂. put_word once (i + 1) (high_part w₂ n val fits.1 small spill)) there
              ∙ write_word once (i + 1) second_word there,
          two_words long,
        )
  ]
