-- ===== src/Bitset/Bit.antt =====
-- `bf_bs_set` and `bf_bs_get` of src/bitset/bitset.c, bit by bit.
use Prim.Native.Nat.{bit_and, bit_or}
use mathlib.Core.Path.{subst}
use native.Mathlib.Nat.{one-le-pow, pow-le-pow_right}
use target_utils.Base.{
  ℕ, zero, suc, ◌+◌, ◌*◌, ◌/◌, ◌%◌, ◌^◌, ◌<◌, ◌≡◌, ◌≢◌, refl, sym, ap, ◌∙◌, arith, Bool, true,
  false, not, ◌&&◌, ◌||◌, word64, ltb, lt→ltb, leb, ◌==◌, ==_iff, ne→==, if◌then◌else◌, Bool-cases,
  ◌⊎◌, inl, inr,
}
use target_utils.Base.Run.{Run, ok, abort, ◌>>=◌, ◌>>◌, Returns, bf_sys_assert_ok}
use target_utils.BitUtils.Digits.{
  digit, digit-lt, digit-shift, digit-bit_and, digit-bit_or, digit-pow, digit-complement, bit_or-lt,
  bit_and-le, bit_and-one, bit_and-pow,
}
use target_utils.Bitset.{
  Bitset, is_negative, length, word_at, put_word, complement, position_asserts, set_bit, bf_bs_set,
  bf_bs_get,
}

-- A width that an `int` can hold, and words of 64 bits.
pub record IsBitset (bs : Bitset) : Type 0 where
  pub small : bs.width < 0x8000_0000
  pub bounded : (i : ℕ) → bs.words i < word64

-- The bit at a position.
abbrev pub bit_at : Bitset → ℕ → ℕ
bit_at bs i = digit (i % 64) (bs.words (i / 64))

abbrev pub is_set : ℕ → Bool
is_set d = not (d == 0)

read_digit : (k w : ℕ) → is_set (bit_and (w / 2 ^ k) 1) ≡ is_set (digit k w)
read_digit k w =
    let same : k + 0 ≡ k = omega arith in
    ap is_set (bit_and-one (w / 2 ^ k) ∙ digit-shift 0 k w ∙ ap (λ n. digit n w) same)

test_digit : (k w : ℕ) → is_set (bit_and w (2 ^ k)) ≡ is_set (digit k w)
test_digit k w = ap is_set (bit_and-pow k w) ∙ by_digit (digit k w) (digit-lt k w)
  where
    by_digit : (d : ℕ) → d < 2 → is_set (d * 2 ^ k) ≡ is_set d
    by_digit zero h = ap is_set (let none_left : 0 * 2 ^ k ≡ 0 = omega arith in none_left)
    by_digit (suc zero) h =
        let pos : 0 < 2 ^ k = one-le-pow k 2 (omega arith) in
        let some_left : 1 * 2 ^ k ≢ 0 = λ e. omega arith in ap not (ne→== (1 * 2 ^ k) 0 some_left)
    by_digit (suc (suc d)) h = absurd (omega arith)

power_small : (s : ℕ) → s < 64 → 2 ^ s < 2 ^ 64
power_small s low =
    let top = pow-le-pow_right {n = 2} (omega arith) {i = s} {j = 63} (omega arith) in omega arith

-- One digit of a word written.
abbrev Wrote : ℕ → ℕ → ℕ → ℕ → Type 0
Wrote w s v w' = (w' < word64) × ((k : ℕ) → k < 64 → digit k w' ≡ (if s == k then v else digit k w))

set_one : (w s : ℕ) → w < word64 → s < 64 → Wrote w s 1 (bit_or w (2 ^ s))
set_one w s small low = (
  bit_or-lt 64 w (2 ^ s) small (power_small s low),
  λ k h. digit-bit_or k w (2 ^ s) ∙ ground (arith, digit-pow k s, digit-lt k w),
)

set_zero : (w s : ℕ) → w < word64 → s < 64 → Wrote w s 0 (bit_and w (complement (2 ^ s)))
set_zero w s small low =
    let le = bit_and-le w w (complement (2 ^ s)) (omega arith) in
    (
      omega arith,
      λ k h.
          digit-bit_and k w (complement (2 ^ s))
          ∙ ground (
            arith,
            digit-complement 64 k (2 ^ s) h (power_small s low),
            digit-pow k s,
            digit-lt k w,
          ),
    )

-- The bit read before the write is returned, and the sets differ in the bit written.
abbrev pub Written : Bitset → ℕ → ℕ → Bitset × Bool → Type 0
Written bs i v (bs', prev) =
    (prev ≡ is_set (bit_at bs i))
    × IsBitset bs'
    × (bs'.width ≡ bs.width)
    × ((k : ℕ) → bit_at bs' k ≡ (if i == k then v else bit_at bs k))

-- The same in terms of `bf_bs_get`.
abbrev pub Stored : Bool → Bitset → ℕ → ℕ → Bitset × Bool → Type 0
Stored asserts bs i val (bs', prev) =
    (bf_bs_get asserts bs i ≡ ok prev)
    × IsBitset bs'
    × (bs'.width ≡ bs.width)
    × ((k : ℕ)
        → k < bs.width
        → bf_bs_get asserts bs' k
          ≡ (if i == k then ok (not (val == 0)) else bf_bs_get asserts bs k))

module _ (asserts : Bool) (bs : Bitset) (valid : IsBitset bs) (i : ℕ) (inside : i < bs.width) where
  abbrev idx : ℕ
  idx = i / 64

  abbrev s : ℕ
  s = i % 64

  abbrev w : ℕ
  w = bs.words idx

  in_array : ltb idx (length bs) ≡ true
  in_array = let h = valid.small in lt→ltb idx (length bs) (omega arith)

  word_read {ℓ} : {A : Type ℓ} (next : ℕ → Run A) → (word_at bs idx >>= next) ≡ next w
  word_read {A} next = ap (λ b. (if b then ok w else abort) >>= next) in_array

  put_word_ok :
      (v : ℕ)
      → put_word bs idx v ≡ ok (record bs { words = λ j. if idx == j then v else bs.words j })
  put_word_ok v =
      ap
        (λ b.
          if b then ok (record bs { words = λ j. if idx == j then v else bs.words j }) else abort)
        in_array

  pub passes : position_asserts asserts bs i ≡ ok tt
  passes =
      let h = valid.small in
      let low : not (is_negative i) ≡ true = ground arith in
      rw (bf_sys_assert_ok asserts (not (is_negative i)) low)
        (bf_sys_assert_ok asserts (ltb i bs.width) (lt→ltb i bs.width inside))

  guard : (is_negative i || leb bs.width i) ≡ false
  guard = let h = valid.small in ground arith

  -- `bf_bs_get` from its guard on.
  abbrev get_body : Bool → Run Bool
  get_body refused = elim refused [
    | true ↦ ok false
    | false ↦ do w ← word_at bs idx; ok (is_set (bit_and (w / 2 ^ s) 1))
  ]

  pub get_lem : bf_bs_get asserts bs i ≡ ok (is_set (bit_at bs i))
  unfolding bf_bs_get
  get_lem =
      ap (λ r. do r; get_body (is_negative i || leb bs.width i)) passes
      ∙ ap get_body guard
      ∙ word_read (λ w. ok (is_set (bit_and (w / 2 ^ s) 1)))
      ∙ ap ok (read_digit s w)

  put-Written :
      (v w' : ℕ)
      → Wrote w s v w'
      → Written bs i v
          (record bs { words = λ j. if idx == j then w' else bs.words j }, is_set (bit_at bs i))
  put-Written v w' (small, digits) = (
    refl,
    record {
      small = valid.small;
      bounded = λ j. elim (Bool-cases (idx == j)) [
        | inl here ↦ subst (λ b. (if b then w' else bs.words j) < word64) (sym here) small
        | inr other ↦
            subst (λ b. (if b then w' else bs.words j) < word64) (sym other) (valid.bounded j)
      ];
    },
    refl,
    λ k. elim (Bool-cases (idx == k / 64)) [
      | inl here ↦
          let same : idx ≡ k / 64 = (==_iff idx (k / 64)).0 here in
          let at : (s == k % 64) ≡ (i == k) = ground arith in
          ap (λ b. digit (k % 64) (if b then w' else bs.words (k / 64))) here
          ∙ digits (k % 64) (omega arith)
          ∙ ap (λ b. if b then v else digit (k % 64) w) at
          ∙ ap (λ n. if i == k then v else digit (k % 64) (bs.words n)) same
      | inr other ↦
          let apart : (i == k) ≡ false = ground arith in
          ap (λ b. digit (k % 64) (if b then w' else bs.words (k / 64))) other
          ∙ sym (ap (λ b. if b then v else bit_at bs k) apart)
    ],
  )

  unchanged : (v : ℕ) → bit_at bs i ≡ v → Written bs i v (bs, is_set (bit_at bs i))
  unchanged v e = (
    refl,
    valid,
    refl,
    λ k. elim (Bool-cases (i == k)) [
      | inl here ↦
          let same : i ≡ k = (==_iff i k).0 here in
          ap (bit_at bs) (sym same) ∙ e ∙ sym (ap (λ b. if b then v else bit_at bs k) here)
      | inr other ↦ sym (ap (λ b. if b then v else bit_at bs k) other)
    ],
  )

  -- `bf_bs_set` from its guard on.
  abbrev set_body : ℕ → Bool → Run (Bitset × Bool)
  set_body val refused = elim refused [
    | true ↦ ok (bs, false)
    | false ↦ set_bit asserts bs i (not (val == 0))
  ]

  -- `set_bit` from its tests on.
  abbrev tested : Bool → Bool → Bool → Run (Bitset × Bool)
  tested first second prev = elim first [
    | true ↦ do bs' ← put_word bs idx (bit_or w (2 ^ s)); ok (bs', prev)
    | false ↦ elim second [
      | true ↦ do bs' ← put_word bs idx (bit_and w (complement (2 ^ s))); ok (bs', prev)
      | false ↦ ok (bs, prev)
    ]
  ]

  abbrev then_prev : Bool → Run Bitset → Run (Bitset × Bool)
  then_prev prev run = do bs' ← run; ok (bs', prev)

  set_run :
      (val : Bool)
      → set_bit asserts bs i val
        ≡ (let prev = is_set (bit_at bs i) in tested (val && not prev) (not val && prev) prev)
  unfolding set_bit
  set_run val =
      word_read (λ w.
        let prev = is_set (bit_and w (2 ^ s)) in
        elim (val && not prev) [
          | true ↦ do bs' ← put_word bs idx (bit_or w (2 ^ s)); ok (bs', prev)
          | false ↦ elim (not val && prev) [
            | true ↦ do bs' ← put_word bs idx (bit_and w (complement (2 ^ s))); ok (bs', prev)
            | false ↦ ok (bs, prev)
          ]
        ])
      ∙ ap (λ prev. tested (val && not prev) (not val && prev) prev) (test_digit s w)

  set_bit-Written :
      (val : Bool) → Returns (set_bit asserts bs i val) (Written bs i (if val then 1 else 0))
  set_bit-Written val = by_bit val (Bool-cases (is_set (bit_at bs i)))
    where
      prev : Bool
      prev = is_set (bit_at bs i)

      step :
          (val b : Bool)
          → prev ≡ b
          → set_bit asserts bs i val ≡ tested (val && not b) (not val && b) prev
      step val b e = set_run val ∙ ap (λ p. tested (val && not p) (not val && p) prev) e

      by_bit :
          (val : Bool)
          → (prev ≡ true) ⊎ (prev ≡ false)
          → Returns (set_bit asserts bs i val) (Written bs i (if val then 1 else 0))
      by_bit true (inl on) =
          ((bs, prev), step true true on, unchanged 1 (ground (arith, digit-lt s w, on)))
      by_bit true (inr off) = (
        (record bs { words = λ j. if idx == j then bit_or w (2 ^ s) else bs.words j }, prev),
        step true false off ∙ ap (then_prev prev) (put_word_ok (bit_or w (2 ^ s))),
        put-Written 1 (bit_or w (2 ^ s)) (set_one w s (valid.bounded idx) (omega arith)),
      )
      by_bit false (inl on) = (
        (
          record bs {
            words = λ j. if idx == j then bit_and w (complement (2 ^ s)) else bs.words j;
          },
          prev,
        ),
        step false true on ∙ ap (then_prev prev) (put_word_ok (bit_and w (complement (2 ^ s)))),
        put-Written 0 (bit_and w (complement (2 ^ s)))
            (set_zero w s (valid.bounded idx) (omega arith)),
      )
      by_bit false (inr off) =
          ((bs, prev), step false false off, unchanged 0 (ground (arith, digit-lt s w, off)))

  set_whole : (val : ℕ) → bf_bs_set asserts bs i val ≡ set_bit asserts bs i (not (val == 0))
  unfolding bf_bs_set
  set_whole val =
      ap (λ r. do r; set_body val (is_negative i || leb bs.width i)) passes
      ∙ ap (set_body val) guard

read_back :
    (c b : Bool) (d : ℕ) (run : Run Bool)
    → run ≡ ok (is_set d)
    → ok (is_set (if c then (if b then 1 else 0) else d)) ≡ (if c then ok b else run)
read_back true true d run e = refl
read_back true false d run e = refl
read_back false b d run e = sym e

-- On a set of words whose width an `int` can hold and a position below it, `bf_bs_set` fails no
-- assertion, returns the bit as `bf_bs_get` read it before, and afterwards `bf_bs_get` reads the
-- new bit at the position and every other bit as before; the width and the bound on the words stay.
pub bf_bs_set-Written :
    (asserts : Bool) (bs : Bitset) (i val : ℕ)
    → IsBitset bs
    → i < bs.width
    → Returns (bf_bs_set asserts bs i val) (Stored asserts bs i val)
bf_bs_set-Written asserts bs i val valid inside =
    let (r, run, (prev, valid', width, bits)) =
      set_bit-Written asserts bs valid i inside (not (val == 0)) in
    (
      r,
      set_whole asserts bs valid i inside val ∙ run,
      (
        get_lem asserts bs valid i inside ∙ ap ok (sym prev),
        valid',
        width,
        λ k below.
            get_lem asserts r.0 valid' k (omega (arith, width))
            ∙ ap (λ d. ok (is_set d)) (bits k)
            ∙ read_back (i == k) (not (val == 0)) (bit_at bs k) (bf_bs_get asserts bs k)
                (get_lem asserts bs valid k below),
      ),
    )
