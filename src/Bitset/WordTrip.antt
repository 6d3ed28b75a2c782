-- ===== src/Bitset/WordTrip.antt =====
-- A field that `bf_bs_set_word` of src/bitset/bitset.c writes, as `bf_bs_get_word` and `bf_bs_get` read it.
use mathlib.Core.Path.{subst}
use native.Mathlib.Nat.{mod-lt, one-le-pow}
use target_utils.Base.{
  ℕ, ◌+◌, ◌-◌, ◌%◌, ◌^◌, ◌≤◌, ◌<◌, ◌≡◌, refl, sym, ap, ◌∙◌, arith, Bool, true, false, ltb, lt→ltb,
  sub32, if◌then◌else◌, word64,
}
use target_utils.Base.Run.{Run, ok, Returns}
use target_utils.BitUtils.Digits.{digit, digits_eq}
use target_utils.BitUtils.Fields.{digit-mod}
use target_utils.Bitset.{Bitset, bf_bs_get}
use target_utils.Bitset.Range.{cut_size, bf_bs_get_word, bf_bs_set_word}
use target_utils.Bitset.Bit.{IsBitset, bit_at, is_set, get_lem}
use target_utils.Bitset.Word.{in_field, field_bit}
use target_utils.Bitset.SetWord.{bf_bs_set_word-FieldWritten}
use target_utils.Bitset.GetWord.{FieldRead, bf_bs_get_word-FieldRead}

-- The field reads back, and a bit outside of it as before.
abbrev pub FieldStored : Bool → Bitset → ℕ → ℕ → ℕ → Bitset → Type 0
FieldStored asserts bs position asked val bs' =
    let size = cut_size asserts bs position asked in
    IsBitset bs'
    × (bs'.width ≡ bs.width)
    × (bf_bs_get_word asserts bs' position asked ≡ ok (val % 2 ^ size))
    × ((k : ℕ)
        → k < bs.width
        → bf_bs_get asserts bs' k ≡ (
            if in_field position size k
            then ok (is_set (digit (k - position) val))
            else bf_bs_get asserts bs k))

read_field :
    (c : Bool) (d e : ℕ) (run : Run Bool)
    → run ≡ ok (is_set e)
    → ok (is_set (if c then d else e)) ≡ (if c then ok (is_set d) else run)
read_field true d e run same = refl
read_field false d e run same = sym same

module _ (asserts : Bool) (bs : Bitset) (valid : IsBitset bs) (position asked val : ℕ)
    (inside : position < bs.width) (some_bits : 0 < asked) (le : asked ≤ 64)
    (small : val < word64) where
  abbrev n : ℕ
  n = cut_size asserts bs position asked

  -- The number that is read is the low part of the value.
  value_lem :
      (bs' : Bitset) (r : ℕ)
      → ((k : ℕ) → bit_at bs' k ≡ field_bit bs position n val k)
      → FieldRead bs' position n r
      → r ≡ val % 2 ^ n
  value_lem bs' r bits (bound, digits) =
      let pos = one-le-pow n 2 (omega arith) in
      digits_eq n r (val % 2 ^ n) bound (mod-lt val {m = 2 ^ n} (omega arith)) (λ k below.
        let within : in_field position n (position + k) ≡ true = ground arith in
        let place : position + k - position ≡ k = omega arith in
        digits k below
        ∙ bits (position + k)
        ∙ ap (λ b. if b then digit (position + k - position) val else bit_at bs (position + k))
            within
        ∙ ap (λ p. digit p val) place
        ∙ sym (digit-mod n k val ∙ ap (λ b. if b then digit k val else 0) (lt→ltb k n below)))

  stored :
      Returns
        (bf_bs_set_word asserts bs position asked val)
        (FieldStored asserts bs position asked val)
  stored =
      let (bs', run, (valid', width, bits)) =
        bf_bs_set_word-FieldWritten asserts bs valid position asked val inside some_bits le small in
      let (r, read, field) =
        bf_bs_get_word-FieldRead asserts bs' valid' position asked (omega (arith, width)) some_bits
          le in
      let same : cut_size asserts bs' position asked ≡ n =
        ap (λ (w : ℕ). if ltb (sub32 w position) asked then sub32 w position else asked) width in
      (
        bs',
        run,
        (
          valid',
          width,
          read ∙ ap ok (value_lem bs' r bits (subst (λ n. FieldRead bs' position n r) same field)),
          λ k below.
              get_lem asserts bs' valid' k (omega (arith, width))
              ∙ ap (λ d. ok (is_set d)) (bits k)
              ∙ read_field (in_field position n k) (digit (k - position) val) (bit_at bs k)
                  (bf_bs_get asserts bs k) (get_lem asserts bs valid k below),
        ),
      )

-- On a set of words whose width an `int` can hold, a position below it and a size of 1 to 64,
-- `bf_bs_set_word` fails no assertion; `bf_bs_get_word` then returns the low bits of the value, as
-- many as the size cut to what is left of the set has, also where they stand in two words;
-- `bf_bs_get` reads each bit of the field from the value and every other bit as before.
pub bf_bs_get_word-bf_bs_set_word :
    (asserts : Bool) (bs : Bitset) (position asked val : ℕ)
    → IsBitset bs
    → position < bs.width
    → 0 < asked
    → asked ≤ 64
    → val < word64
    → Returns
        (bf_bs_set_word asserts bs position asked val)
        (FieldStored asserts bs position asked val)
bf_bs_get_word-bf_bs_set_word asserts bs position asked val valid inside some_bits le small =
    stored asserts bs valid position asked val inside some_bits le small
