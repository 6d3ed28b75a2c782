-- ===== src/Bitset/Range.antt =====
-- src/bitset/bitset.c: the functions on words, on whole sets and on ranges. A function that writes
-- a set returns it; two sets do not share their words.
use Prim.Native.Nat.{bit_and, bit_or}
use target_utils.Base.{
  ℕ, zero, suc, ◌+◌, ◌-◌, ◌*◌, ◌/◌, ◌%◌, ◌^◌, Bool, true, false, word64, u32, add32, sub32, sub64,
  ltb, leb, ◌==◌, ◌&&◌, if◌then◌else◌,
}
use target_utils.Base.Run.{Run, ok, ◌>>=◌, ◌>>◌, bf_sys_assert}
use target_utils.Bitset.{
  Bitset, length, word_at, put_word, complement, shift_left, low_ones, bits_set, builtin_popcountll,
  mask_top, position_asserts,
}

-- `for (i = 0; i < len - 1; ++i)`, with the rounds left: whether all words have all their bits.
unfoldable pub full_words : ℕ → Bitset → ℕ → Run Bool
full_words zero bs i = ok true
full_words (suc n) bs i = do
  w ← word_at bs i
  elim (w == word64 - 1) [ true ↦ full_words n bs (i + 1) | false ↦ ok false ]

unfoldable pub bf_bs_all_1s : Bitset → Run Bool
unfolding full_words
bf_bs_all_1s bs = do
  let last = sub64 (length bs) 1
  full ← full_words last bs 0
  elim full [
    | false ↦ ok false
    | true ↦ do
      w ← word_at bs last
      let left_over = bs.width % 64
      ok (if left_over == 0 then w == word64 - 1 else w == low_ones left_over)
  ]

-- `for (i = 0; i < len; ++i)`, with the rounds left.
unfoldable pub empty_words : ℕ → Bitset → ℕ → Run Bool
empty_words zero bs i = ok true
empty_words (suc n) bs i = do
  w ← word_at bs i
  elim (w == 0) [ true ↦ empty_words n bs (i + 1) | false ↦ ok false ]

unfoldable pub bf_bs_all_0s : Bitset → Run (Bitset × Bool)
unfolding mask_top empty_words
bf_bs_all_0s bs = do bs' ← mask_top bs; empty ← empty_words (length bs) bs' 0; ok (bs', empty)

-- `for (i = 0; i < length(bs); ++i)`, with the rounds left.
unfoldable pub count_words : ℕ → Bitset → ℕ → ℕ → Run ℕ
unfolding bits_set
count_words zero bs i cnt = ok cnt
count_words (suc n) bs i cnt = do
  w ← word_at bs i
  count_words n bs (i + 1) (add32 cnt (builtin_popcountll w))

unfoldable pub bf_bs_pop_count : Bitset → Run (Bitset × ℕ)
unfolding mask_top count_words
bf_bs_pop_count bs = do bs' ← mask_top bs; cnt ← count_words (length bs) bs' 0 0; ok (bs', cnt)

module _ (asserts : Bool) where
  -- The size cut to what is left of the set.
  abbrev pub cut_size : Bitset → ℕ → ℕ → ℕ
  cut_size bs position size =
      if ltb (sub32 bs.width position) size then sub32 bs.width position else size

  -- `bf_sys_assert(size > 0)` and `bf_sys_assert(size <= 64)` on a pattern of an `int`.
  abbrev pub size_asserts : ℕ → Run (Unit {0})
  size_asserts size = do
    bf_sys_assert asserts (ltb 0 size && ltb size 0x8000_0000)
    bf_sys_assert asserts (leb size 64)

  unfoldable pub bf_bs_set_word : Bitset → ℕ → ℕ → ℕ → Run Bitset
  bf_bs_set_word bs position asked val = do
    position_asserts asserts bs position
    size_asserts asked
    let size = cut_size bs position asked
    let mod_bit_offset = position % 64
    let idx = position / 64
    let ones = if ltb size 64 then low_ones size else word64 - 1
    let val' = if ltb size 64 then bit_and val (low_ones size) else val
    w ← word_at bs idx
    let cleared = bit_and w (complement (shift_left ones mod_bit_offset))
    bs₁ ← put_word bs idx (bit_or cleared (shift_left val' mod_bit_offset))
    elim (ltb 64 (mod_bit_offset + size)) [
      | false ↦ ok bs₁
      | true ↦ do
        let spill = mod_bit_offset + size - 64
        w₂ ← word_at bs₁ (idx + 1)
        let cleared₂ = bit_and w₂ (complement (low_ones spill))
        put_word bs₁ (idx + 1) (bit_or cleared₂ (val' / 2 ^ (size - spill)))
    ]

  -- The part of a word of bits that stands in the next element.
  abbrev pub spilled : Bitset → ℕ → ℕ → ℕ → Run ℕ
  spilled bs bit_offset n_bits word = do
    let mod_bit_offset = bit_offset % 64
    elim (mod_bit_offset == 0) [
      | true ↦ ok word
      | false ↦ elim (ltb 64 (mod_bit_offset + n_bits)) [
        | false ↦ ok (word / 2 ^ mod_bit_offset)
        | true ↦ do
          let spill = mod_bit_offset + n_bits - 64
          word2 ← word_at bs (bit_offset / 64 + 1)
          ok (bit_or (word / 2 ^ mod_bit_offset) (shift_left word2 (n_bits - spill)))
      ]
    ]

  unfoldable pub bf_bs_get_word : Bitset → ℕ → ℕ → Run ℕ
  bf_bs_get_word bs bit_offset asked = do
    position_asserts asserts bs bit_offset
    size_asserts asked
    let n_bits = cut_size bs bit_offset asked
    first ← word_at bs (bit_offset / 64)
    word ← spilled bs bit_offset n_bits first
    ok (if ltb n_bits 64 then bit_and word (low_ones n_bits) else word)

  -- `for (i = 0; i < length(x); ++i)`, with the rounds left.
  unfoldable pub same_words : ℕ → Bitset → Bitset → ℕ → Run Bool
  unfolding bf_bs_get_word
  same_words zero x y i = ok true
  same_words (suc n) x y i = do
    xx ← bf_bs_get_word x (u32 (i * 64)) 64
    yy ← bf_bs_get_word y (u32 (i * 64)) 64
    elim (xx == yy) [ true ↦ same_words n x y (i + 1) | false ↦ ok false ]

  unfoldable pub bf_bs_equal : Bitset → Bitset → Run (Bitset × Bitset × Bool)
  unfolding mask_top same_words
  bf_bs_equal x y = elim (x.width == y.width) [
    | false ↦ ok (x, y, false)
    | true ↦ do
      x' ← mask_top x
      y' ← mask_top y
      same ← same_words (length x) x' y' 0
      ok (x', y', same)
  ]

  -- `for (i = 0; i < src->width / 64; ++i) dst->bs[i] = src->bs[i];`, with the rounds left.
  unfoldable pub copy_words : ℕ → Bitset → Bitset → ℕ → Run Bitset
  copy_words zero dst src i = ok dst
  copy_words (suc n) dst src i = do
    w ← word_at src i
    dst' ← put_word dst i w
    copy_words n dst' src (i + 1)

  unfoldable pub bf_bs_copy : Bitset → Bitset → Run Bitset
  unfolding copy_words
  bf_bs_copy dst src = do
    bf_sys_assert asserts (src.width == dst.width)
    dst' ← copy_words (src.width / 64) dst src 0
    w ← word_at src (src.width / 64)
    put_word dst' (src.width / 64) (bit_and w (low_ones (src.width % 64)))

  -- `for (i = 0; i < src->width / 64; ++i)` over words of bits, with the rounds left.
  unfoldable pub copy_range_words : ℕ → Bitset → ℕ → Bitset → ℕ → ℕ → Run Bitset
  unfolding bf_bs_get_word bf_bs_set_word
  copy_range_words zero dst dst_offset src src_offset i = ok dst
  copy_range_words (suc n) dst dst_offset src src_offset i = do
    x ← bf_bs_get_word src (u32 (src_offset + i * 64)) 64
    dst' ← bf_bs_set_word dst (u32 (dst_offset + i * 64)) 64 x
    copy_range_words n dst' dst_offset src src_offset (i + 1)

  unfoldable pub bf_bs_copy_range : Bitset → ℕ → Bitset → ℕ → ℕ → Run Bitset
  unfolding copy_range_words bf_bs_get_word bf_bs_set_word
  bf_bs_copy_range dst dst_offset src src_offset n_bits = do
    bf_sys_assert asserts (ltb (sub32 (add32 src_offset n_bits) 1) src.width)
    bf_sys_assert asserts (ltb (sub32 (add32 dst_offset n_bits) 1) dst.width)
    let i = src.width / 64
    dst' ← copy_range_words i dst dst_offset src src_offset 0
    x ← bf_bs_get_word src (u32 (src_offset + i * 64)) (n_bits % 64)
    bf_bs_set_word dst' (u32 (dst_offset + i * 64)) (n_bits % 64) x
