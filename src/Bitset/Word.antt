-- ===== src/Bitset/Word.antt =====
-- `bf_bs_set_word` of src/bitset/bitset.c: which bits it writes.
use target_utils.Base.{
  ℕ, ◌+◌, ◌-◌, ◌/◌, ◌%◌, ◌≤◌, ◌<◌, ◌≡◌, refl, ap, ◌∙◌, arith, Bool, true, false, not, ◌&&◌, ltb,
  leb, sub32, lt→ltb, ltb→lt, ltb→le, le→leb, ◌==◌, if◌then◌else◌, Bool-cases, ◌⊎◌, inl, inr,
  word64,
}
use target_utils.Base.Run.{Run, ok, abort, ◌>>=◌, ◌>>◌, bf_sys_assert, bf_sys_assert_ok}
use target_utils.BitUtils.Digits.{digit}
use target_utils.Bitset.{Bitset, length, word_at, put_word}
use target_utils.Bitset.Range.{cut_size, size_asserts}
use target_utils.Bitset.Bit.{IsBitset, bit_at}

abbrev pub with_word : Bitset → ℕ → ℕ → Bitset
with_word bs i w = record bs { words = λ j. if i == j then w else bs.words j }

pub read_word {ℓ} :
    {A : Type ℓ} (bs : Bitset) (i : ℕ) (next : ℕ → Run A)
    → ltb i (length bs) ≡ true
    → (word_at bs i >>= next) ≡ next (bs.words i)
read_word {A} bs i next h = ap (λ b. (if b then ok (bs.words i) else abort) >>= next) h

pub write_word :
    (bs : Bitset) (i w : ℕ) → ltb i (length bs) ≡ true → put_word bs i w ≡ ok (with_word bs i w)
write_word bs i w h = ap (λ b. if b then ok (with_word bs i w) else abort) h

pub with_word-IsBitset :
    (bs : Bitset) (i w : ℕ) → IsBitset bs → w < word64 → IsBitset (with_word bs i w)
with_word-IsBitset bs i w valid h = record {
  small = valid.small;
  bounded = λ j. by_place (i == j) (bs.words j) (valid.bounded j);
}
  where
    by_place : (b : Bool) (v : ℕ) → v < word64 → (if b then w else v) < word64
    by_place true v g = h
    by_place false v g = g

pub bit_at-with_word :
    (bs : Bitset) (i w k : ℕ)
    → bit_at (with_word bs i w) k ≡ (if i == k / 64 then digit (k % 64) w else bit_at bs k)
bit_at-with_word bs i w k = by_place (i == k / 64)
  where
    by_place :
        (b : Bool)
        → digit (k % 64) (if b then w else bs.words (k / 64))
          ≡ (if b then digit (k % 64) w else bit_at bs k)
    by_place true = refl
    by_place false = refl

-- The position of a bit within the field.
abbrev pub in_field : ℕ → ℕ → ℕ → Bool
in_field position size k = leb position k && ltb k (position + size)

-- The bits of the field, and the others.
abbrev pub field_bit : Bitset → ℕ → ℕ → ℕ → ℕ → ℕ
field_bit bs position size val k =
    if in_field position size k then digit (k - position) val else bit_at bs k

module _ (position size k : ℕ) where
  pub first_test :
      position / 64 ≡ k / 64
      → (not (ltb (k % 64) (position % 64)) && ltb (k % 64 - position % 64) size)
        ≡ in_field position size k
  first_test same = ground arith

  pub first_place : position / 64 ≡ k / 64 → k % 64 - position % 64 ≡ k - position
  first_place same = omega arith

  pub second_test :
      position / 64 + 1 ≡ k / 64
      → 64 < position % 64 + size
      → ltb (k % 64) (position % 64 + size - 64) ≡ in_field position size k
  second_test next spills = ground arith

  pub second_place :
      position / 64 + 1 ≡ k / 64
      → 64 < position % 64 + size
      → size - (position % 64 + size - 64) + k % 64 ≡ k - position
  second_place next spills = omega arith

  pub outside_first :
      (position / 64 == k / 64) ≡ false
      → position % 64 + size ≤ 64
      → in_field position size k ≡ false
  outside_first other fits = ground arith

  pub outside_both :
      (position / 64 == k / 64) ≡ false
      → (position / 64 + 1 == k / 64) ≡ false
      → size ≤ 64
      → in_field position size k ≡ false
  outside_both first second le = ground arith

module _ (asserts : Bool) (bs : Bitset) (valid : IsBitset bs) (position asked : ℕ)
    (inside : position < bs.width) (some_bits : 0 < asked) (le : asked ≤ 64) where
  abbrev pub size : ℕ
  size = cut_size asserts bs position asked

  pub size_lem : (0 < size) × (size ≤ 64) × (position + size ≤ bs.width)
  size_lem =
      let h = valid.small in
      let left : sub32 bs.width position ≡ bs.width - position = omega arith in
      by_test (sub32 bs.width position) left (Bool-cases (ltb (sub32 bs.width position) asked))
    where
      by_test :
          (n : ℕ)
          → n ≡ bs.width - position
          → (ltb n asked ≡ true) ⊎ (ltb n asked ≡ false)
          → (0 < (if ltb n asked then n else asked))
            × ((if ltb n asked then n else asked) ≤ 64)
            × (position + (if ltb n asked then n else asked) ≤ bs.width)
      by_test n e (inl cut) =
          let h = ltb→lt n asked cut in rw (cut) (omega arith, omega arith, omega arith)
      by_test n e (inr whole) =
          let h = ltb→le n asked whole in rw (whole) (omega arith, omega arith, omega arith)

  pub sizes : size_asserts asserts asked ≡ ok tt
  sizes =
      let both : (ltb 0 asked && ltb asked 0x8000_0000) ≡ true = ground arith in
      ap (λ r. do r; bf_sys_assert asserts (leb asked 64))
        (bf_sys_assert_ok asserts (ltb 0 asked && ltb asked 0x8000_0000) both)
      ∙ bf_sys_assert_ok asserts (leb asked 64) (le→leb asked 64 le)

  abbrev pub idx : ℕ
  idx = position / 64

  abbrev pub m : ℕ
  m = position % 64

  pub first_inside : ltb idx (length bs) ≡ true
  first_inside = let h = valid.small in lt→ltb idx (length bs) (omega arith)

  pub second_inside : 64 < m + size → ltb (idx + 1) (length bs) ≡ true
  second_inside spills =
      let h = valid.small in let fits = size_lem in lt→ltb (idx + 1) (length bs) (omega arith)
