-- ===== src/Power2/Reserve.antt =====
-- `power2_allocator_reserve` of src/power2_allocator/power2_allocator.c as a whole.
use mathlib.Core.Path.{subst}
use target_utils.Base.{
  ℕ, ◌+◌, ◌≤◌, ◌<◌, ◌≡◌, sym, ap, ◌∙◌, arith, minus_one, word32, Bool, true, false, Option, none,
  some, add32, ltb, ltb→lt, ltb→le, ◌==◌, if◌then◌else◌, Bool-cases, Option-cases, ◌⊎◌, inl, inr,
}
use target_utils.Base.Run.{Run, ok, ◌>>=◌}
use target_utils.Judy.Many.{JudyL, HasMemory}
use target_utils.Power2.{
  Allocator, power2_allocator_get_next_inuse_block, power2_allocator_get_prev_inuse_block,
}
use target_utils.Power2.Calls.{start_of, end_of, reserve_block, power2_allocator_reserve}
use target_utils.Power2.Pieces.{some_ne_none}
use target_utils.Power2.Ranges.{SameSizes, reserve_block_lem}
use target_utils.Power2.Keep.{added-IsValid, IsEnd-le}
use target_utils.Power2.Valid.{has_lists, IsEnd, IsGap, IsValid, blocks_of, left_of}
use target_utils.Power2.Neighbours.{start_of_lem, end_of_lem}
use target_utils.Power2.Release.{size_of_used, size_of_unused}
use target_utils.Power2.Reserved.{add_block}

module _ (judy : JudyL) (asserts : Bool) where
  -- A block in use overlaps the range, or the range goes beyond the last index.
  abbrev pub Taken : Allocator judy → ℕ → ℕ → Type 0
  Taken al i size =
      ((b : ℕ) × (v : ℕ) × (blocks_of judy al b ≡ some v) × (b < i + size) × (i < b + v))
      ⊎ (al.total_size < i + size)

  -- The range is refused, with 1 and nothing changed, because it is taken; or it was not taken and
  -- is one more block in use of a valid allocator of the same sizes, with 0 returned.
  abbrev pub Reserved : Allocator judy → ℕ → ℕ → Run (Allocator judy × ℕ) → Type 0
  Reserved al i size run =
      ((run ≡ ok (al, 1)) × Taken al i size)
      ⊎ ((al' : Allocator judy) × (run ≡ ok (al', 0))
          × (¬ (Taken al i size))
          × IsValid judy al'
          × SameSizes judy asserts al al'
          × ((k : ℕ) → blocks_of judy al' k ≡ add_block (blocks_of judy al) i size k))

  -- A range inside a gap is not taken.
  pub inside_gap :
      (al : Allocator judy)
      → IsValid judy al
      → (s e i size : ℕ) → IsGap (blocks_of judy al) al.total_size s e
      → s ≤ i
      → i + size ≤ e
      → 0 < size
      → ¬ (Taken al i size)
  inside_gap al valid s e i size gap before behind pos (inr beyond) =
      let below = IsEnd-le (blocks_of judy al) al.total_size e valid.blocks gap.ends in omega arith
  inside_gap al valid s e i size gap before behind pos (inl (b, v, there, lo, hi)) =
      elim (Bool-cases (ltb b s)) [
        | inl early ↦
            let a =
              left_of (blocks_of judy al) al.total_size valid.blocks b v s there (ltb→lt b s early)
                gap.starts in
            omega arith
        | inr late ↦ some_ne_none (sym there ∙ gap.unused b (ltb→le b s late) (omega arith))
      ]

  module _ (memory : HasMemory judy) (al : Allocator judy) (i size : ℕ) (valid : IsValid judy al)
      (pos : 0 < size) (fits : i + size < word32) where
    abbrev used : ℕ → Option ℕ
    used = blocks_of judy al

    abbrev s : ℕ
    s = start_of judy asserts (power2_allocator_get_prev_inuse_block judy al i)

    abbrev e : ℕ
    e = end_of judy asserts al.total_size (power2_allocator_get_next_inuse_block judy al i)

    -- The two tests on the range.
    abbrev tested : Bool → Bool → Run (Allocator judy × ℕ)
    tested early late =
        if early
        then ok (al, 1)
        else if late
        then ok (al, 1)
        else reserve_block judy asserts al i size s e

    reserve_used :
        (v : ℕ) → used i ≡ some v → power2_allocator_reserve judy asserts al i size ≡ ok (al, 1)
    unfolding power2_allocator_reserve
    reserve_used v there =
        let b = valid.blocks.within i v there in
        let small = valid.small in
        let found : (v == minus_one) ≡ false = ground (arith, b, small) in
        ap
          (λ r. do
            n ← r
            elim (n == minus_one) [
              | false ↦ ok (al, 1)
              | true ↦ tested (ltb i s) (ltb e (add32 i size))
            ])
          (size_of_used judy asserts al i v there b.0 (omega (arith, b, small)))
        ∙ ap (λ c. elim c [ false ↦ ok (al, 1) | true ↦ tested (ltb i s) (ltb e (add32 i size)) ])
            found

    reserve_unused :
        used i ≡ none
        → power2_allocator_reserve judy asserts al i size ≡ tested (ltb i s) (ltb e (add32 i size))
    unfolding power2_allocator_reserve
    reserve_unused gone =
        ap
          (λ r. do
            n ← r
            elim (n == minus_one) [
              | false ↦ ok (al, 1)
              | true ↦ tested (ltb i s) (ltb e (add32 i size))
            ])
          (size_of_unused judy asserts al i gone)

    early_Taken : i < s → Taken al i size
    early_Taken early = elim (start_of_lem judy asserts al valid i).2 [
      | inl zero_start ↦ absurd (omega arith)
      | inr (p, v, before, there, ends) ↦ inl (p, v, there, omega arith, omega arith)
    ]

    late_Taken : e < i + size → Taken al i size
    late_Taken late = let a = end_of_lem judy asserts al valid i in by_end a.0 a.2
      where
        by_end : IsEnd used al.total_size e → (i < e) ⊎ (e ≡ al.total_size) → Taken al i size
        by_end (inl border) later = inr (omega arith)
        by_end (inr (v, there)) (inl later) = inl (e, v, there, late, omega arith)
        by_end (inr (v, there)) (inr border) = inr (omega arith)

    module _ (gone : used i ≡ none) (before : s ≤ i) (behind : i + size ≤ e) where
      around : IsGap used al.total_size s e
      around =
          let a = start_of_lem judy asserts al valid i in
          let b = end_of_lem judy asserts al valid i in
          record {
            starts = a.0;
            ends = b.0;
            ordered = omega arith;
            unused = λ k p q. elim (Bool-cases (ltb k i)) [
              | inl early ↦ a.1 k p (ltb→lt k i early)
              | inr late ↦ elim (Bool-cases (ltb i k)) [
                | inl later ↦ b.3 k (ltb→lt i k later) q
                | inr level ↦
                    let same : i ≡ k = omega (arith, ltb→le k i late, ltb→le i k level) in
                    ap used (sym same) ∙ gone
              ]
            ];
          }

      reserve_block-Reserved : Reserved al i size (reserve_block judy asserts al i size s e)
      reserve_block-Reserved =
          let end = end_of_lem judy asserts al valid i in
          let small = valid.small in
          let (after, run, c, left, clear, right) =
            reserve_block_lem judy asserts memory al s i size e (has_lists judy al valid) valid.few
              before behind (omega (arith, end.1, small)) gone (valid.gaps s e around) in
          inr (
            after,
            run,
            inside_gap al valid s e i size around before behind pos,
            added-IsValid judy asserts al after valid s i size e c around before pos behind left
                clear right,
            c.sizes,
            c.used,
          )

    reserve-Reserved : Reserved al i size (power2_allocator_reserve judy asserts al i size)
    reserve-Reserved =
        let sum : add32 i size ≡ i + size = omega arith in
        elim (Option-cases (used i)) [
          | inr (v, there) ↦
              let b = valid.blocks.within i v there in
              inl (reserve_used v there, inl (i, v, there, omega arith, omega (arith, b)))
          | inl gone ↦ elim (Bool-cases (ltb i s)) [
            | inl early ↦ inl (
              reserve_unused gone ∙ ap (λ t. tested t (ltb e (add32 i size))) early,
              early_Taken (ltb→lt i s early),
            )
            | inr on ↦ elim (Bool-cases (ltb e (add32 i size))) [
              | inl late ↦ inl (
                reserve_unused gone
                    ∙ ap (λ t. tested t (ltb e (add32 i size))) on
                    ∙ ap (tested false) late,
                late_Taken (let a = ltb→lt e (add32 i size) late in omega (arith, a, sum)),
              )
              | inr within ↦
                  let run : power2_allocator_reserve judy asserts al i size
                      ≡ reserve_block judy asserts al i size s e =
                    reserve_unused gone
                    ∙ ap (λ t. tested t (ltb e (add32 i size))) on
                    ∙ ap (tested false) within in
                  let room : i + size ≤ e =
                    let a = ltb→le e (add32 i size) within in omega (arith, a, sum) in
                  subst (Reserved al i size) (sym run)
                    (reserve_block-Reserved gone (ltb→le i s on) room)
            ]
          ]
        ]

  -- As long as memory does not run out, `power2_allocator_reserve` on a valid allocator and a range
  -- that is not empty and ends below 2^32 fails no assertion and ends; it returns 1 and changes
  -- nothing where a block in use overlaps the range or the range goes beyond the last index, and
  -- else returns 0, brings the range into use as one block, and leaves a valid allocator of the
  -- same sizes with the other blocks as before.
  pub power2_allocator_reserve-Reserved :
      HasMemory judy
      → (al : Allocator judy) (i size : ℕ) → IsValid judy al
      → 0 < size
      → i + size < word32
      → Reserved al i size (power2_allocator_reserve judy asserts al i size)
  power2_allocator_reserve-Reserved memory al i size valid pos fits =
      reserve-Reserved memory al i size valid pos fits
