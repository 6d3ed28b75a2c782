-- ===== src/Bitset/Search.antt =====
-- `bf_bs_first_set` of src/bitset/bitset.c as a whole, with the mask on the last word.
use mathlib.Core.Path.{subst}
use Prim.Native.Nat.{min, bit_and}
use target_utils.Base.{
  ℕ, ◌+◌, ◌-◌, ◌*◌, ◌/◌, ◌%◌, ◌^◌, ◌≤◌, ◌<◌, ◌≡◌, refl, sym, ap, ◌∙◌, arith, Bool, true, false, not,
  ◌||◌, word64, minus_one, add32, sub64, ltb, lt→ltb, le→ltb, ltb→lt, ltb→le, le→leb, lt→leb, leb,
  ◌==◌, ==_iff, if◌then◌else◌, Bool-cases, inl, inr,
}
use target_utils.Base.Run.{Run, ok, abort, ◌>>=◌, ◌>>◌, Returns, bf_sys_assert, bf_sys_assert_ok}
use target_utils.BitUtils.Digits.{digit, digit-lt, digit-bit_and, digit-ones, bit_and-le}
use target_utils.Bitset.{
  Bitset, is_negative, length, put_word, low_ones, top_word_mask, mask_top, search_from, first_from,
  bf_bs_first_set,
}
use target_utils.Bitset.Bit.{IsBitset, bit_at}
use target_utils.Bitset.First.{IsFirst, IsClean, search_from-IsFirst}

-- The same bits below the width, which is the same too.
abbrev pub Seen : Bitset → Bitset → Type 0
Seen bs bs' =
    (bs'.width ≡ bs.width) × IsBitset bs' × ((q : ℕ) → q < bs.width → bit_at bs' q ≡ bit_at bs q)

test_split : (t u q w : ℕ) → 64 * t + u ≡ w → t ≡ q / 64 → ltb (q % 64) u ≡ ltb q w
test_split t u q w level same = ground arith

min_test : (b : Bool) (d : ℕ) → d < 2 → min d (if b then 1 else 0) ≡ (if b then d else 0)
min_test true d h = omega arith
min_test false d h = omega arith

module _ (bs : Bitset) (valid : IsBitset bs) (some_bits : 0 < bs.width) where
  abbrev top : ℕ
  top = sub64 (length bs) 1

  -- The number of bits in the last word.
  abbrev used : ℕ
  used = if bs.width % 64 == 0 then 64 else bs.width % 64

  used_lem : 64 * top + used ≡ bs.width
  used_lem = let h = valid.small in ground arith

  mask_lem : top_word_mask bs ≡ 2 ^ used - 1
  mask_lem = by_test (bs.width % 64 == 0)
    where
      by_test :
          (b : Bool)
          → (if b then word64 - 1 else low_ones (bs.width % 64))
            ≡ 2 ^ (if b then 64 else bs.width % 64) - 1
      by_test true = refl
      by_test false = refl

  abbrev last : ℕ
  last = bit_and (bs.words top) (top_word_mask bs)

  abbrev masked : Bitset
  masked = record bs { words = λ j. if top == j then last else bs.words j }

  in_array : ltb top (length bs) ≡ true
  in_array = let h = valid.small in lt→ltb top (length bs) (omega arith)

  mask_top_ok : mask_top bs ≡ ok masked
  unfolding mask_top
  mask_top_ok =
      ap
        (λ b. do
          w ← (if b then ok (bs.words top) else abort)
          put_word bs top (bit_and w (top_word_mask bs)))
        in_array
      ∙ ap (λ b. if b then ok masked else abort) in_array

  masked-IsBitset : IsBitset masked
  masked-IsBitset = record {
    small = valid.small;
    bounded = λ j. elim (Bool-cases (top == j)) [
      | inl here ↦
          let le = bit_and-le (bs.words top) (bs.words top) (top_word_mask bs) (omega arith) in
          let h = valid.bounded top in
          subst (λ b. (if b then last else bs.words j) < word64) (sym here) (omega arith)
      | inr other ↦
          subst (λ b. (if b then last else bs.words j) < word64) (sym other) (valid.bounded j)
    ];
  }

  -- A bit of the last word stays where it is below the width.
  last_bit : (q : ℕ) → top ≡ q / 64 → bit_at masked q ≡ (if ltb q bs.width then bit_at bs q else 0)
  last_bit q same =
      let here = (==_iff top (q / 64)).1 same in
      let level = used_lem in
      let at : ltb (q % 64) used ≡ ltb q bs.width = test_split top used q bs.width level same in
      ap (λ b. digit (q % 64) (if b then last else bs.words (q / 64))) here
      ∙ digit-bit_and (q % 64) (bs.words top) (top_word_mask bs)
      ∙ ap (λ m. min (digit (q % 64) (bs.words top)) (digit (q % 64) m)) mask_lem
      ∙ ap (min (digit (q % 64) (bs.words top))) (digit-ones used (q % 64))
      ∙ ap (λ b. min (digit (q % 64) (bs.words top)) (if b then 1 else 0)) at
      ∙ min_test (ltb q bs.width) (digit (q % 64) (bs.words top)) (digit-lt (q % 64) (bs.words top))
      ∙ ap (λ n. if ltb q bs.width then digit (q % 64) (bs.words n) else 0) same

  kept_bit : (q : ℕ) → (top == q / 64) ≡ false → bit_at masked q ≡ bit_at bs q
  kept_bit q other = ap (λ b. digit (q % 64) (if b then last else bs.words (q / 64))) other

  masked-Seen : Seen bs masked
  masked-Seen = (
    refl,
    masked-IsBitset,
    λ q below. elim (Bool-cases (top == q / 64)) [
      | inl here ↦
          last_bit q ((==_iff top (q / 64)).0 here)
          ∙ ap (λ b. if b then bit_at bs q else 0) (lt→ltb q bs.width below)
      | inr other ↦ kept_bit q other
    ],
  )

  masked-IsClean : IsClean masked
  masked-IsClean q beyond inside =
      let h = valid.small in
      let level = used_lem in
      last_bit q (omega arith) ∙ ap (λ b. if b then bit_at bs q else 0) (le→ltb q bs.width beyond)

-- What the call left of the set has the same bits, and the answer is the first bit that is set behind
-- the one it was given.
abbrev pub Answered : Bitset → ℕ → Bitset × ℕ → Type 0
Answered bs before (bs', r) = Seen bs bs' × IsFirst bs' (add32 before 1) r

module _ (asserts : Bool) (bs : Bitset) (valid : IsBitset bs) (before : ℕ)
    (reach : add32 before 1 ≤ bs.width) where
  abbrev from : ℕ
  from = add32 before 1

  -- `bf_bs_first_set` from its guard on.
  abbrev body : Bool → Run (Bitset × ℕ)
  body refused = elim refused [
    | true ↦ ok (bs, minus_one)
    | false ↦ do bs' ← mask_top bs; found ← search_from (λ w. w) bs' from; ok (bs', found)
  ]

  guarded : bf_bs_first_set asserts bs before ≡ body (is_negative from || leb bs.width from)
  unfolding bf_bs_first_set first_from
  guarded =
      let h = valid.small in
      let low : not (is_negative from) ≡ true = ground arith in
      ap
        (λ r. do
          r
          bf_sys_assert asserts (leb from bs.width)
          body (is_negative from || leb bs.width from))
        (bf_sys_assert_ok asserts (not (is_negative from)) low)
      ∙ ap (λ r. do r; body (is_negative from || leb bs.width from))
          (bf_sys_assert_ok asserts (leb from bs.width) (le→leb from bs.width reach))

  at_end : from ≡ bs.width → Returns (bf_bs_first_set asserts bs before) (Answered bs before)
  at_end e =
      let refused : (is_negative from || leb bs.width from) ≡ true =
        ap (λ b. b || leb bs.width from)
          (lt→leb 0x8000_0000 from (let h = valid.small in omega arith))
        ∙ le→leb bs.width from (omega arith) in
      (
        (bs, minus_one),
        guarded ∙ ap body refused,
        ((refl, valid, λ q below. refl), inl (refl, λ q p below. absurd (omega arith))),
      )

  inside_set : from < bs.width → Returns (bf_bs_first_set asserts bs before) (Answered bs before)
  inside_set below =
      let h = valid.small in
      let some_bits : 0 < bs.width = omega arith in
      let passed : (is_negative from || leb bs.width from) ≡ false = ground arith in
      let after = masked bs valid some_bits in
      let (r, run, first) =
        search_from-IsFirst after (masked-IsBitset bs valid some_bits)
          (masked-IsClean bs valid some_bits) from below in
      (
        (after, r),
        guarded
            ∙ ap body passed
            ∙ ap (λ m. do bs' ← m; found ← search_from (λ w. w) bs' from; ok (bs', found))
                (mask_top_ok bs valid some_bits)
            ∙ ap (λ m. do found ← m; ok (after, found)) run,
        (masked-Seen bs valid some_bits, first),
      )

-- On a set of words whose width an `int` can hold, `bf_bs_first_set` of a position that is at most
-- the last one, or of -1, fails no assertion, touches no bit below the width, and returns the first
-- bit that is set behind the position, or -1 where there is none.
pub bf_bs_first_set-Answered :
    (asserts : Bool) (bs : Bitset) (before : ℕ)
    → IsBitset bs
    → add32 before 1 ≤ bs.width
    → Returns (bf_bs_first_set asserts bs before) (Answered bs before)
bf_bs_first_set-Answered asserts bs before valid reach =
    elim (Bool-cases (ltb (add32 before 1) bs.width)) [
      | inl below ↦
          inside_set asserts bs valid before reach (ltb→lt (add32 before 1) bs.width below)
      | inr beyond ↦
          let le = ltb→le (add32 before 1) bs.width beyond in
          at_end asserts bs valid before reach (omega arith)
    ]
