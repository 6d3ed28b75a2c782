-- ===== src/Bitset/Tests.antt =====
-- Runs of the bit sets, and their theorems at inputs.
use target_utils.Base.{ℕ, ◌≡◌, refl, arith, Bool, true, false, minus_one, ◌==◌, if◌then◌else◌}
use target_utils.Base.Run.{Run, ok, abort, Returns, ◌>>=◌}
use target_utils.BitUtils.{trailing_zeros}
use target_utils.Bitset.{
  Bitset, builtin_ffsll, bits_set, mask_top, scan_words, search_from, bf_bs_init, set_bit,
  bf_bs_set, bf_bs_get, bf_bs_set_all, first_from, bf_bs_first_set, bf_bs_first_clr,
}
use target_utils.Bitset.Range.{
  full_words, bf_bs_all_1s, empty_words, bf_bs_all_0s, count_words, bf_bs_pop_count, bf_bs_set_word,
  bf_bs_get_word, same_words, bf_bs_equal, copy_words, bf_bs_copy, copy_range_words,
  bf_bs_copy_range,
}
use target_utils.Bitset.WordTrip.{FieldStored, bf_bs_get_word-bf_bs_set_word}
use target_utils.Bitset.Search.{Answered, bf_bs_first_set-Answered}
use target_utils.Bitset.Bit.{IsBitset, Stored, bf_bs_set-Written}

program : Unit {0}
unfolding trailing_zeros builtin_ffsll bits_set mask_top scan_words search_from bf_bs_init set_bit
    bf_bs_set bf_bs_get bf_bs_set_all first_from bf_bs_first_set bf_bs_first_clr full_words
    bf_bs_all_1s empty_words bf_bs_all_0s count_words bf_bs_pop_count bf_bs_set_word bf_bs_get_word
    same_words bf_bs_equal copy_words bf_bs_copy copy_range_words bf_bs_copy_range
program = tt

-- A set of 100 bits, none of them set.
abbrev hundred : Bitset
hundred = record { width = 100; words = λ i. 0 }

abbrev marked : Run (ℕ × ℕ × ℕ × Bool)
marked = do
  (a, p) ← bf_bs_set true hundred 70 1
  (b, q) ← bf_bs_set true a 3 1
  (c, first) ← bf_bs_first_set true b minus_one
  (d, second) ← bf_bs_first_set true c 3
  (e, count) ← bf_bs_pop_count d
  ok (first, second, count, q)

marked_found : marked ≡ ok (3, 70, 2, false)
unfolding program
marked_found = refl

-- A word of bits over the border of two elements.
abbrev across : Run (ℕ × ℕ × ℕ)
across = do
  a ← bf_bs_set_word true hundred 60 8 0xa5
  w ← bf_bs_get_word true a 60 8
  lower ← bf_bs_get_word true a 0 64
  upper ← bf_bs_get_word true a 64 64
  ok (w, lower, upper)

across_both : across ≡ ok (0xa5, 0x5000_0000_0000_0000, 0xa)
unfolding program
across_both = refl

abbrev all_set : Run (Bool × Bool)
all_set = do
  a ← bf_bs_set_all true hundred 1
  full ← bf_bs_all_1s a
  (b, empty) ← bf_bs_all_0s a
  ok (full, empty)

all_set_seen : all_set ≡ ok (true, false)
unfolding program
all_set_seen = refl

-- With every bit set, the search for a clear bit ends in the width where that is in the last word.
abbrev none_clear : Run ℕ
none_clear = do a ← bf_bs_set_all true hundred 1; (b, found) ← bf_bs_first_clr true a 64; ok found

none_clear_width : none_clear ≡ ok 100
unfolding program
none_clear_width = refl

-- A copy of a set of whole words writes behind its last one.
abbrev whole : Bitset
whole = record { width = 64; words = λ i. 5 }

copy_beyond : bf_bs_copy true whole whole ≡ abort
unfolding program
copy_beyond = refl

abbrev copied : Run (ℕ × ℕ × Bool)
copied = do
  (a, p) ← bf_bs_set true hundred 70 1
  b ← bf_bs_copy true hundred a
  (c, d, same) ← bf_bs_equal true a b
  ok (b.words 0, b.words 1, same)

copied_same : copied ≡ ok (0, 64, true)
unfolding program
copied_same = refl

-- A range of whole words ends in a request for no bits.
range_of_words : bf_bs_copy_range true hundred 0 hundred 0 64 ≡ abort
unfolding program
range_of_words = refl

-- 100 bits, of which the bits 3 and 70 are set.
abbrev two_bits : Bitset
two_bits = record { width = 100; words = λ i. if i == 0 then 8 else if i == 1 then 64 else 0 }

two_bits-IsBitset : IsBitset two_bits
two_bits-IsBitset = record { small = omega arith; bounded = λ i. ground arith }

bf_bs_set-Written_example : Returns (bf_bs_set true two_bits 70 0) (Stored true two_bits 70 0)
bf_bs_set-Written_example = bf_bs_set-Written true two_bits 70 0 two_bits-IsBitset (omega arith)

bf_bs_first_set-Answered_example : Returns (bf_bs_first_set true two_bits 3) (Answered two_bits 3)
bf_bs_first_set-Answered_example =
    bf_bs_first_set-Answered true two_bits 3 two_bits-IsBitset (omega arith)

-- Eight bits over the border of the two words.
bf_bs_get_word-bf_bs_set_word_example :
    Returns (bf_bs_set_word true two_bits 60 8 0x1a5) (FieldStored true two_bits 60 8 0x1a5)
bf_bs_get_word-bf_bs_set_word_example =
    bf_bs_get_word-bf_bs_set_word true two_bits 60 8 0x1a5 two_bits-IsBitset (omega arith)
      (omega arith) (omega arith) (omega arith)
