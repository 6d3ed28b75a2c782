-- ===== src/Bitset/First.antt =====
-- The searches of src/bitset/bitset.c for a bit, from a word on and as a whole.
use native.Mathlib.Nat.{div-le_self}
use target_utils.Base.{
  ℕ, zero, suc, ◌+◌, ◌-◌, ◌*◌, ◌/◌, ◌%◌, ◌^◌, ◌≤◌, ◌<◌, ◌≡◌, ◌≢◌, refl, sym, ap, ◌∙◌, arith, true,
  false, not, ◌&&◌, word64, minus_one, u32, sub64, ltb, ltb→lt, ltb→le, lt→ltb, ◌==◌, ==_iff, ne→==,
  if◌then◌else◌, Bool-cases, ◌⊎◌, inl, inr,
}
use target_utils.Base.Run.{Run, ok, abort, ◌>>=◌, Returns}
use target_utils.BitUtils.{trailing_zeros}
use target_utils.BitUtils.Digits.{digit, digit-zero, digit-shift, digit-high, lowest_one}
use target_utils.Bitset.{Bitset, length, word_at, builtin_ffsll, scan_words, search_from}
use target_utils.Bitset.Bit.{IsBitset, bit_at}

-- The answer of `__builtin_ffsll`.
abbrev pub IsLowest : ℕ → ℕ → Type 0
IsLowest x r =
    ((r ≡ 0) × ((k : ℕ) → digit k x ≡ 0))
    ⊎ ((t : ℕ) × (r ≡ suc t) × (t < 64) × (digit t x ≡ 1) × ((k : ℕ) → k < t → digit k x ≡ 0))

pub builtin_ffsll-IsLowest : (x : ℕ) → x < word64 → IsLowest x (builtin_ffsll x)
unfolding builtin_ffsll
builtin_ffsll-IsLowest x small = elim (Bool-cases (x == 0)) [
  | inl gone ↦
      let none_left : x ≡ 0 = (==_iff x 0).0 gone in
      inl (rw gone refl, λ k. ap (digit k) none_left ∙ digit-zero k)
  | inr there ↦
      let (low, one, zeros) = lowest_one 64 x (ground arith) small in
      inr (trailing_zeros 64 x, rw there refl, low, one, zeros)
]

true_ne_false : true ≢ false
true_ne_false e = cc

suc_nonzero : (t : ℕ) → (suc t == 0) ≡ false
suc_nonzero t = ne→== (suc t) 0 (λ e. omega arith)

-- The first bit that is set, from a position on and below the width, or -1.
abbrev pub IsFirst : Bitset → ℕ → ℕ → Type 0
IsFirst bs from r =
    ((r ≡ minus_one) × ((q : ℕ) → from ≤ q → q < bs.width → bit_at bs q ≡ 0))
    ⊎ ((from ≤ r)
        × (r < bs.width)
        × (bit_at bs r ≡ 1)
        × ((q : ℕ) → from ≤ q → q < r → bit_at bs q ≡ 0))

-- No bit is set behind the width.
abbrev pub IsClean : Bitset → Type 0
IsClean bs = (q : ℕ) → bs.width ≤ q → q < 64 * length bs → bit_at bs q ≡ 0

module _ (bs : Bitset) (valid : IsBitset bs) (clean : IsClean bs) where
  bit_of : (i k : ℕ) → k < 64 → bit_at bs (64 * i + k) ≡ digit k (bs.words i)
  bit_of i k h =
      let low : (64 * i + k) % 64 ≡ k = omega arith in
      let high : (64 * i + k) / 64 ≡ i = omega arith in
      ap (λ n. digit n (bs.words ((64 * i + k) / 64))) low ∙ ap (λ n. digit k (bs.words n)) high

  bit_in : (i q : ℕ) → 64 * i ≤ q → q < 64 * i + 64 → bit_at bs q ≡ digit (q - 64 * i) (bs.words i)
  bit_in i q from to =
      let same : q ≡ 64 * i + (q - 64 * i) = omega arith in
      ap (bit_at bs) same ∙ bit_of i (q - 64 * i) (omega arith)

  read_ok : (i : ℕ) → i < length bs → word_at bs i ≡ ok (bs.words i)
  read_ok i h = ap (λ b. if b then ok (bs.words i) else abort) (lt→ltb i (length bs) h)

  -- A bit found in a word of the array is below the width.
  found_below : (p : ℕ) → p < 64 * length bs → bit_at bs p ≡ 1 → p < bs.width
  found_below p inside one = elim (Bool-cases (ltb p bs.width)) [
    | inl below ↦ ltb→lt p bs.width below
    | inr beyond ↦ let gone = clean p (ltb→le p bs.width beyond) inside in absurd (omega arith)
  ]

  span : bs.width ≤ 64 * length bs
  span = let h = valid.small in omega arith

  before_last : (i : ℕ) → suc i < length bs → 64 * i + 64 < bs.width
  before_last i inside = let h = valid.small in omega arith

  -- A bit found in a word, with none before it in the word, is the first one from there on.
  in_word :
      (i from t : ℕ)
      → i < length bs
      → 64 * i ≤ from
      → from ≤ 64 * i + t
      → t < 64
      → digit t (bs.words i) ≡ 1
      → ((q : ℕ) → from ≤ q → q < 64 * i + t → digit (q - 64 * i) (bs.words i) ≡ 0)
      → (64 * i + t < bs.width) × IsFirst bs from (64 * i + t)
  in_word i from t inside start le low one zeros =
      let here : bit_at bs (64 * i + t) ≡ 1 = bit_of i t low ∙ one in
      let below = found_below (64 * i + t) (omega arith) here in
      (below, inr (le, below, here, λ q p r. bit_in i q (omega arith) (omega arith) ∙ zeros q p r))

  -- The rest of a round of `scan_words` on what it read.
  abbrev last_answer : ℕ → ℕ → ℕ
  last_answer i x =
      if not (x == 0) && ltb (64 * i + x - 1) bs.width then u32 (64 * i + x - 1) else minus_one

  abbrev next_answer : ℕ → ℕ → ℕ → Run ℕ
  next_answer n i x = elim (x == 0) [
    | true ↦ scan_words n (λ w. w) bs (i + 1)
    | false ↦ ok (u32 (64 * i + x - 1))
  ]

  last_answer_lem : (i t : ℕ) → 64 * i + t < bs.width → last_answer i (suc t) ≡ 64 * i + t
  last_answer_lem i t below =
      let small = valid.small in
      let at : 64 * i + suc t - 1 ≡ 64 * i + t = omega arith in
      let fits : u32 (64 * i + t) ≡ 64 * i + t = omega arith in
      ap
        (λ b.
          if not b && ltb (64 * i + suc t - 1) bs.width
          then u32 (64 * i + suc t - 1)
          else minus_one)
        (suc_nonzero t)
      ∙ ap (λ n. if ltb n bs.width then u32 n else minus_one) at
      ∙ ap (λ b. if b then u32 (64 * i + t) else minus_one) (lt→ltb (64 * i + t) bs.width below)
      ∙ fits

  last_word :
      (i : ℕ) → suc i ≡ length bs → Returns (scan_words zero (λ w. w) bs i) (IsFirst bs (64 * i))
  unfolding scan_words
  last_word i top =
      let wide = span in
      let start =
        ap (λ r. do w ← r; ok (last_answer i (builtin_ffsll w))) (read_ok i (omega arith)) in
      elim (builtin_ffsll-IsLowest (bs.words i) (valid.bounded i)) [
        | inl (e, zeros) ↦ (
          minus_one,
          start ∙ ap (λ x. ok (last_answer i x)) e,
          inl (refl, λ q from below. bit_in i q from (omega arith) ∙ zeros (q - 64 * i)),
        )
        | inr (t, e, low, one, zeros) ↦
            let (below, first) =
              in_word i (64 * i) t (omega arith) (omega arith) (omega arith) low one
                (λ q p r. zeros (q - 64 * i) (omega arith)) in
            (
              64 * i + t,
              start ∙ ap (λ x. ok (last_answer i x)) e ∙ ap ok (last_answer_lem i t below),
              first,
            )
      ]

  -- What is first from the next word on is first from a word without bits on.
  later-IsFirst :
      (i from r : ℕ)
      → ((q : ℕ) → from ≤ q → q < 64 * (i + 1) → bit_at bs q ≡ 0)
      → from ≤ 64 * (i + 1)
      → IsFirst bs (64 * (i + 1)) r
      → IsFirst bs from r
  later-IsFirst i from r zeros le (inl (e, none_later)) = inl (
    e,
    λ q p below. elim (Bool-cases (ltb q (64 * (i + 1)))) [
      | inl early ↦ zeros q p (ltb→lt q (64 * (i + 1)) early)
      | inr late ↦ none_later q (ltb→le q (64 * (i + 1)) late) below
    ],
  )
  later-IsFirst i from r zeros le (inr (p, below, one, none_between)) = inr (
    omega arith,
    below,
    one,
    λ q p' r'. elim (Bool-cases (ltb q (64 * (i + 1)))) [
      | inl early ↦ zeros q p' (ltb→lt q (64 * (i + 1)) early)
      | inr late ↦ none_between q (ltb→le q (64 * (i + 1)) late) r'
    ],
  )

  pub scan_words-IsFirst :
      (n i : ℕ) → n + suc i ≡ length bs → Returns (scan_words n (λ w. w) bs i) (IsFirst bs (64 * i))
  unfolding scan_words
  scan_words-IsFirst zero i top = last_word i (omega arith)
  scan_words-IsFirst (suc n) i top =
      by_word (builtin_ffsll-IsLowest (bs.words i) (valid.bounded i))
        (scan_words-IsFirst n (i + 1) (omega arith))
    where
      start : scan_words (suc n) (λ w. w) bs i ≡ next_answer n i (builtin_ffsll (bs.words i))
      start = ap (λ r. do w ← r; next_answer n i (builtin_ffsll w)) (read_ok i (omega arith))

      by_word :
          IsLowest (bs.words i) (builtin_ffsll (bs.words i))
          → Returns (scan_words n (λ w. w) bs (i + 1)) (IsFirst bs (64 * (i + 1)))
          → Returns (scan_words (suc n) (λ w. w) bs i) (IsFirst bs (64 * i))
      by_word (inl (e, zeros)) (r, run, first) = (
        r,
        start ∙ ap (next_answer n i) e ∙ run,
        later-IsFirst i (64 * i) r (λ q p to. bit_in i q p (omega arith) ∙ zeros (q - 64 * i))
            (omega arith) first,
      )
      by_word (inr (t, e, low, one, zeros)) later =
          let (below, first) =
            in_word i (64 * i) t (omega arith) (omega arith) (omega arith) low one
              (λ q p r. zeros (q - 64 * i) (omega arith)) in
          let small = valid.small in
          let answer : u32 (64 * i + suc t - 1) ≡ 64 * i + t = omega arith in
          (
            64 * i + t,
            start
                ∙ ap (next_answer n i) e
                ∙ ap
                    (λ b. elim b [
                      | true ↦ scan_words n (λ w. w) bs (i + 1)
                      | false ↦ ok (u32 (64 * i + suc t - 1))
                    ])
                    (suc_nonzero t)
                ∙ ap ok answer,
            first,
          )

  module _ (position : ℕ) (inside : position < bs.width) where
    abbrev i₀ : ℕ
    i₀ = position / 64

    abbrev s₀ : ℕ
    s₀ = position % 64

    abbrev first_answer : ℕ → Run ℕ
    first_answer x = elim (x == 0) [
      | false ↦ ok (u32 (64 * i₀ + x - 1 + s₀))
      | true ↦ elim (i₀ == sub64 (length bs) 1) [
        | true ↦ ok minus_one
        | false ↦ scan_words (length bs - 1 - (i₀ + 1)) (λ w. w) bs (i₀ + 1)
      ]
    ]

    shifted : (k : ℕ) → digit k (bs.words i₀ / 2 ^ s₀) ≡ digit (s₀ + k) (bs.words i₀)
    shifted k = digit-shift k s₀ (bs.words i₀)

    -- The digits of the shifted word are those of the bits from the position on.
    bit_from :
        (q : ℕ)
        → position ≤ q
        → q < 64 * i₀ + 64
        → bit_at bs q ≡ digit (q - position) (bs.words i₀ / 2 ^ s₀)
    bit_from q from to =
        let same : q - 64 * i₀ ≡ s₀ + (q - position) = omega arith in
        bit_in i₀ q (omega arith) to
        ∙ ap (λ n. digit n (bs.words i₀)) same
        ∙ sym (shifted (q - position))

    in_array : i₀ < length bs
    in_array = let wide = span in omega arith

    start : search_from (λ w. w) bs position ≡ first_answer (builtin_ffsll (bs.words i₀ / 2 ^ s₀))
    unfolding search_from
    start = ap (λ r. do w ← r; first_answer (builtin_ffsll (w / 2 ^ s₀))) (read_ok i₀ in_array)

    -- The word from the position on is empty.
    empty_word :
        builtin_ffsll (bs.words i₀ / 2 ^ s₀) ≡ 0
        → ((k : ℕ) → digit k (bs.words i₀ / 2 ^ s₀) ≡ 0)
        → Returns (search_from (λ w. w) bs position) (IsFirst bs position)
    empty_word e zeros = by_last (Bool-cases (i₀ == sub64 (length bs) 1))
      where
        wide : bs.width ≤ 64 * length bs
        wide = span

        none_here : (q : ℕ) → position ≤ q → q < 64 * (i₀ + 1) → bit_at bs q ≡ 0
        none_here q from to = bit_from q from (omega arith) ∙ zeros (q - position)

        by_last :
            ((i₀ == sub64 (length bs) 1) ≡ true) ⊎ ((i₀ == sub64 (length bs) 1) ≡ false)
            → Returns (search_from (λ w. w) bs position) (IsFirst bs position)
        by_last (inl last) =
            let h = valid.small in
            let top : i₀ ≡ sub64 (length bs) 1 = (==_iff i₀ (sub64 (length bs) 1)).0 last in
            (
              minus_one,
              start
                  ∙ ap first_answer e
                  ∙ ap
                      (λ b. elim b [
                        | true ↦ ok minus_one
                        | false ↦ scan_words (length bs - 1 - (i₀ + 1)) (λ w. w) bs (i₀ + 1)
                      ])
                      last,
              inl (refl, λ q from below. none_here q from (omega arith)),
            )
        by_last (inr other) =
            let h = valid.small in
            let inside' = in_array in
            let more : i₀ + 1 < length bs = elim (Bool-cases (ltb (i₀ + 1) (length bs))) [
              | inl near ↦ ltb→lt (i₀ + 1) (length bs) near
              | inr far ↦
                  let le = ltb→le (i₀ + 1) (length bs) far in
                  let hit = (==_iff i₀ (sub64 (length bs) 1)).1 (omega arith) in
                  absurd (true_ne_false (sym hit ∙ other))
            ] in
            let (r, run, first) =
              scan_words-IsFirst (length bs - 1 - (i₀ + 1)) (i₀ + 1) (omega arith) in
            (
              r,
              start
                  ∙ ap first_answer e
                  ∙ ap
                      (λ b. elim b [
                        | true ↦ ok minus_one
                        | false ↦ scan_words (length bs - 1 - (i₀ + 1)) (λ w. w) bs (i₀ + 1)
                      ])
                      other
                  ∙ run,
              later-IsFirst i₀ position r none_here (omega arith) first,
            )

    full_word :
        (t : ℕ)
        → builtin_ffsll (bs.words i₀ / 2 ^ s₀) ≡ suc t
        → digit t (bs.words i₀ / 2 ^ s₀) ≡ 1
        → ((k : ℕ) → k < t → digit k (bs.words i₀ / 2 ^ s₀) ≡ 0)
        → Returns (search_from (λ w. w) bs position) (IsFirst bs position)
    full_word t e one zeros =
        let here : digit (s₀ + t) (bs.words i₀) ≡ 1 = sym (shifted t) ∙ one in
        let low : s₀ + t < 64 = elim (Bool-cases (ltb (s₀ + t) 64)) [
          | inl near ↦ ltb→lt (s₀ + t) 64 near
          | inr far ↦
              let gone =
                digit-high 64 (s₀ + t) (bs.words i₀) (valid.bounded i₀) (ltb→le (s₀ + t) 64 far) in
              absurd (omega arith)
        ] in
        let (below, first) =
          in_word i₀ position (s₀ + t) in_array (omega arith) (omega arith) low here (λ q p r.
            sym (bit_in i₀ q (omega arith) (omega arith))
            ∙ bit_from q p (omega arith)
            ∙ zeros (q - position) (omega arith)) in
        let small = valid.small in
        let answer : u32 (64 * i₀ + suc t - 1 + s₀) ≡ 64 * i₀ + (s₀ + t) = omega arith in
        (
          64 * i₀ + (s₀ + t),
          start
              ∙ ap first_answer e
              ∙ ap
                  (λ b. elim b [
                    | false ↦ ok (u32 (64 * i₀ + suc t - 1 + s₀))
                    | true ↦ elim (i₀ == sub64 (length bs) 1) [
                      | true ↦ ok minus_one
                      | false ↦ scan_words (length bs - 1 - (i₀ + 1)) (λ w. w) bs (i₀ + 1)
                    ]
                  ])
                  (suc_nonzero t)
              ∙ ap ok answer,
          first,
        )

    pub search_from-IsFirst : Returns (search_from (λ w. w) bs position) (IsFirst bs position)
    search_from-IsFirst =
        let bounded = valid.bounded i₀ in
        let le = div-le_self (bs.words i₀) (2 ^ s₀) in
        elim (builtin_ffsll-IsLowest (bs.words i₀ / 2 ^ s₀) (omega arith)) [
          | inl (e, zeros) ↦ empty_word e zeros
          | inr (t, e, low, one, zeros) ↦ full_word t e one zeros
        ]
