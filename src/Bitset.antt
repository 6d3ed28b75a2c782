-- ===== src/Bitset.antt =====
-- src/bitset/bitset.c and include/target-utils/bitset/bitset.h: sets of bits in an array of 64-bit
-- words. An access beyond the array that the width asks for ends the process. An `int` is its 32-bit
-- pattern; in a build without assertions the positions of the functions on words are not negative.
-- `x >> k` is `x / 2 ^ k`, `x << k` is `x * 2 ^ k` modulo 2^64, and `~x` is 2^64 - 1 - x. Pointers to
-- sets are not NULL.
pub mod Range
pub mod Bit
pub mod First
pub mod Search
pub mod Field
pub mod Word
pub mod SetWord
pub mod GetWord
pub mod WordTrip
mod Tests
use Prim.Native.Nat.{bit_and, bit_or}
use target_utils.Base.{
  ℕ, zero, suc, ◌+◌, ◌-◌, ◌*◌, ◌/◌, ◌%◌, ◌^◌, Bool, true, false, not, ◌&&◌, ◌||◌, minus_one, word64,
  u32, add32, sub32, add64, sub64, ltb, leb, ◌==◌, if◌then◌else◌,
}
use target_utils.Base.Run.{Run, ok, abort, ◌>>=◌, ◌>>◌, bf_sys_assert}
use target_utils.BitUtils.{trailing_zeros}

pub record Bitset : Type 0 where
  pub width : ℕ
  pub words : ℕ → ℕ

abbrev pub is_negative : ℕ → Bool
is_negative position = leb 0x8000_0000 position

abbrev pub length : Bitset → ℕ
length bs = add32 bs.width 63 / 64

-- `bs->bs[i]`, read and written.
abbrev pub word_at : Bitset → ℕ → Run ℕ
word_at bs i = if ltb i (length bs) then ok (bs.words i) else abort

abbrev pub put_word : Bitset → ℕ → ℕ → Run Bitset
put_word bs i w =
    if ltb i (length bs)
    then ok (record bs { words = λ j. if i == j then w else bs.words j })
    else abort

abbrev pub complement : ℕ → ℕ
complement x = word64 - 1 - x

abbrev pub shift_left : ℕ → ℕ → ℕ
shift_left x k = x * 2 ^ k % word64

-- `(UINT64_C(1) << k) - 1`.
abbrev pub low_ones : ℕ → ℕ
low_ones k = 2 ^ k - 1

-- One more than the index of the lowest bit that is set, or 0.
unfoldable pub builtin_ffsll : ℕ → ℕ
unfolding trailing_zeros
builtin_ffsll x = if x == 0 then 0 else suc (trailing_zeros 64 x)

-- The bits that are set, among the lowest ones.
unfoldable pub bits_set : ℕ → ℕ → ℕ
bits_set zero x = 0
bits_set (suc n) x = x % 2 + bits_set n (x / 2)

abbrev pub builtin_popcountll : ℕ → ℕ
builtin_popcountll x = bits_set 64 x

abbrev pub top_word_mask : Bitset → ℕ
top_word_mask bs = if bs.width % 64 == 0 then word64 - 1 else low_ones (bs.width % 64)

-- `bs->bs[len - 1] &= top_word_mask(bs)`.
unfoldable pub mask_top : Bitset → Run Bitset
mask_top bs = do
  let top = sub64 (length bs) 1
  w ← word_at bs top
  put_word bs top (bit_and w (top_word_mask bs))

-- The search in the words from `i` on, with the words left before the last one; `view` is what is
-- read of a word.
unfoldable pub scan_words : ℕ → (ℕ → ℕ) → Bitset → ℕ → Run ℕ
unfolding builtin_ffsll
scan_words zero view bs i = do
  w ← word_at bs i
  let x = builtin_ffsll (view w)
  ok (if not (x == 0) && ltb (64 * i + x - 1) bs.width then u32 (64 * i + x - 1) else minus_one)
scan_words (suc n) view bs i = do
  w ← word_at bs i
  let x = builtin_ffsll (view w)
  elim (x == 0) [ true ↦ scan_words n view bs (i + 1) | false ↦ ok (u32 (64 * i + x - 1)) ]

-- `bf_bs_first_set` and `bf_bs_first_clr` past their guards.
unfoldable pub search_from : (ℕ → ℕ) → Bitset → ℕ → Run ℕ
unfolding scan_words builtin_ffsll
search_from view bs position = do
  let i = position / 64
  let shift = position % 64
  w ← word_at bs i
  let x = builtin_ffsll (view w / 2 ^ shift)
  elim (x == 0) [
    | false ↦ ok (u32 (64 * i + x - 1 + shift))
    | true ↦ elim (i == sub64 (length bs) 1) [
      | true ↦ ok minus_one
      | false ↦ scan_words (length bs - 1 - (i + 1)) view bs (i + 1)
    ]
  ]

module _ (asserts : Bool) where
  unfoldable pub bf_bs_init : ℕ → (ℕ → ℕ) → Run Bitset
  bf_bs_init width mem = do
    bf_sys_assert asserts (ltb 0 width && not (is_negative width))
    ok (record { width = width; words = mem })

  -- `bf_sys_assert(position >= 0)` and `bf_sys_assert((unsigned)position < bs->width)`.
  abbrev pub position_asserts : Bitset → ℕ → Run (Unit {0})
  position_asserts bs position = do
    bf_sys_assert asserts (not (is_negative position))
    bf_sys_assert asserts (ltb position bs.width)

  -- `bf_bs_set` past its guard, for `val != 0`.
  unfoldable pub set_bit : Bitset → ℕ → Bool → Run (Bitset × Bool)
  set_bit bs position val = do
    let idx = position / 64
    let tmp = 2 ^ (position % 64)
    w ← word_at bs idx
    let prev = not (bit_and w tmp == 0)
    elim (val && not prev) [
      | true ↦ do bs' ← put_word bs idx (bit_or w tmp); ok (bs', prev)
      | false ↦ elim (not val && prev) [
        | true ↦ do bs' ← put_word bs idx (bit_and w (complement tmp)); ok (bs', prev)
        | false ↦ ok (bs, prev)
      ]
    ]

  unfoldable pub bf_bs_set : Bitset → ℕ → ℕ → Run (Bitset × Bool)
  unfolding set_bit
  bf_bs_set bs position val = do
    position_asserts bs position
    elim (is_negative position || leb bs.width position) [
      | true ↦ ok (bs, false)
      | false ↦ set_bit bs position (not (val == 0))
    ]

  unfoldable pub bf_bs_get : Bitset → ℕ → Run Bool
  bf_bs_get bs position = do
    position_asserts bs position
    elim (is_negative position || leb bs.width position) [
      | true ↦ ok false
      | false ↦ do
        w ← word_at bs (position / 64)
        ok (not (bit_and (w / 2 ^ (position % 64)) 1 == 0))
    ]

  -- `memset` fills the words of the array.
  abbrev pub filled : Bitset → ℕ → Bitset
  filled bs w = record bs { words = λ i. if ltb i (length bs) then w else bs.words i }

  unfoldable pub bf_bs_set_all : Bitset → ℕ → Run Bitset
  unfolding mask_top
  bf_bs_set_all bs val = elim (val == 1) [
    | true ↦ mask_top (filled bs (word64 - 1))
    | false ↦ elim (val == 0) [
      | true ↦ ok (filled bs 0)
      | false ↦ do bf_sys_assert asserts (val == 1 || val == 0); ok bs
    ]
  ]

  -- `bf_bs_first_set` and `bf_bs_first_clr` differ in what they read of a word.
  unfoldable pub first_from : (ℕ → ℕ) → Bitset → ℕ → Run (Bitset × ℕ)
  unfolding mask_top search_from
  first_from view bs before = do
    let position = add32 before 1
    bf_sys_assert asserts (not (is_negative position))
    bf_sys_assert asserts (leb position bs.width)
    elim (is_negative position || leb bs.width position) [
      | true ↦ ok (bs, minus_one)
      | false ↦ do bs' ← mask_top bs; found ← search_from view bs' position; ok (bs', found)
    ]

  unfoldable pub bf_bs_first_set : Bitset → ℕ → Run (Bitset × ℕ)
  unfolding first_from
  bf_bs_first_set bs position = first_from (λ w. w) bs position

  unfoldable pub bf_bs_first_clr : Bitset → ℕ → Run (Bitset × ℕ)
  unfolding first_from
  bf_bs_first_clr bs position = first_from complement bs position
