-- ===== src/Power2/Check.antt =====
-- `power2_allocator_free_list_assert` of src/power2_allocator/power2_allocator.c, the self-check of a
-- free range.
use target_utils.Base.{
  ℕ, zero, suc, ◌+◌, ◌-◌, ◌≤◌, ◌<◌, ◌≡◌, refl, ap, ◌∙◌, arith, word32, u32, add32, sub32, Bool,
  true, false, ◌&&◌, Option, some, ◌==◌, ==_iff, if◌then◌else◌, Bool-cases, inl, inr,
}
use target_utils.Base.Run.{
  Run, ok, abort, out_of_fuel, ◌>>=◌, ◌>>◌, bf_sys_assert, bf_sys_assert_ok,
}
use target_utils.Judy.Many.{JudyL, Pointer, pjerr, null, slot, slot_of}
use target_utils.Power2.{Allocator, free_log2_of, piece_of, round_asserts}
use target_utils.Power2.Pieces.{pieces, pieces_step, piece_bounds, free_log2_of-aligned, not_here}
use target_utils.Power2.Insert.{free_at, round_asserts_ok}
use target_utils.Power2.Valid.{IsGap, IsValid, blocks_of, has_lists}
use target_utils.Power2.Keep.{IsEnd-le}

module _ (judy : JudyL) (asserts : Bool) where
  open judy use {jlg}

  -- What follows JLG in a round, and whether the loop goes on. JLG does not return PJERR.
  abbrev pub check_at : ℕ → Pointer → Run Bool
  check_at piece pjerr = abort
  check_at piece null = do bf_sys_assert asserts false; ok false
  check_at piece (slot i tmp_size) = do bf_sys_assert asserts (u32 tmp_size == piece); ok true

  -- A round, up to the change of the index.
  abbrev pub check_piece : Allocator judy → ℕ → ℕ → Run Bool
  check_piece al cur_index rem_size = do
    let free_log2 = free_log2_of al.no_free_lists cur_index rem_size
    round_asserts judy asserts free_log2 cur_index
    check_at (piece_of free_log2 rem_size) (jlg (al.free_lists free_log2) cur_index)

  -- `while (rem_size)`.
  unfoldable pub check_loop : ℕ → Allocator judy → ℕ → ℕ → Run (Unit {0})
  check_loop zero al cur_index rem_size = out_of_fuel
  check_loop (suc fuel) al cur_index rem_size = elim (rem_size == 0) [
    | true ↦ ok tt
    | false ↦ do
      present ← check_piece al cur_index rem_size
      let piece = piece_of (free_log2_of al.no_free_lists cur_index rem_size) rem_size
      elim present [
        | true ↦ check_loop fuel al (add32 cur_index piece) (sub32 rem_size piece)
        | false ↦ ok tt
      ]
  ]

  unfoldable pub power2_allocator_free_list_assert : Allocator judy → ℕ → ℕ → Run (Unit {0})
  unfolding check_loop
  power2_allocator_free_list_assert al free_index size = check_loop (suc size) al free_index size

  module _ (al : Allocator judy) (lists : 0 < al.no_free_lists) (few : al.no_free_lists ≤ 32) where
    abbrev nfl : ℕ
    nfl = al.no_free_lists

    check_at_ok :
        (piece cur : ℕ) (o : Option ℕ)
        → piece < word32
        → o ≡ some piece
        → check_at piece (slot_of cur o) ≡ ok true
    check_at_ok piece cur o small there =
        let same : u32 piece ≡ piece = omega arith in
        ap (λ o. check_at piece (slot_of cur o)) there
        ∙ ap (λ r. do r; ok true)
            (bf_sys_assert_ok asserts (u32 piece == piece) ((==_iff (u32 piece) piece).1 same))

    check_loop_step :
        (fuel cur rem : ℕ)
        → 0 < rem
        → cur + rem < word32
        → free_at judy al (free_log2_of nfl cur rem) cur
          ≡ some (piece_of (free_log2_of nfl cur rem) rem)
        → let piece = piece_of (free_log2_of nfl cur rem) rem in
          check_loop (suc fuel) al cur rem ≡ check_loop fuel al (cur + piece) (rem - piece)
    unfolding check_loop
    check_loop_step fuel cur rem pos fits there =
        let more : (rem == 0) ≡ false = ground arith in
        let fl = free_log2_of nfl cur rem in
        let piece = piece_of fl rem in
        let b = piece_bounds nfl cur rem lists few pos fits in
        let cur' : add32 cur piece ≡ cur + piece = omega (arith, b) in
        let rem' : sub32 rem piece ≡ rem - piece = omega (arith, b) in
        let found =
          ap (check_at piece) (judy.jlg_lem (al.free_lists fl) cur)
          ∙ check_at_ok piece cur _ (omega (arith, b)) there in
        let run : check_piece al cur rem ≡ ok true =
          ap (λ r. do r; check_at piece (jlg (al.free_lists fl) cur))
            (round_asserts_ok judy asserts fl cur
              (free_log2_of-aligned nfl cur rem lists few pos fits))
          ∙ found in
        rw (more, check_loop, run, cur', rem') refl

    check_loop-ok :
        (fuel cur rem : ℕ)
        → rem < fuel
        → cur + rem < word32
        → ((l k : ℕ) → cur ≤ k → k < cur + rem → free_at judy al l k ≡ pieces fuel nfl cur rem l k)
        → check_loop fuel al cur rem ≡ ok tt
    unfolding check_loop
    check_loop-ok zero cur rem enough fits filled = absurd (omega arith)
    check_loop-ok (suc fuel) cur rem enough fits filled = elim (Bool-cases (rem == 0)) [
      | inl done ↦ rw (done, check_loop) refl
      | inr more ↦
          let pos : 0 < rem = ground arith in
          let fl = free_log2_of nfl cur rem in
          let piece = piece_of fl rem in
          let b = piece_bounds nfl cur rem lists few pos fits in
          let here : (fl == fl && cur == cur) ≡ true = ground arith in
          check_loop_step fuel cur rem pos fits (
            filled fl cur (omega arith) (omega arith)
            ∙ pieces_step fuel nfl cur rem fl cur pos
            ∙ ap (λ c. if c then some piece else pieces fuel nfl (cur + piece) (rem - piece) fl cur)
                here)
          ∙ check_loop-ok fuel (cur + piece) (rem - piece) (omega (arith, b)) (omega (arith, b))
              (λ l k p q.
                filled l k (omega (arith, b)) (omega (arith, b))
                ∙ pieces_step fuel nfl cur rem l k pos
                ∙ ap
                    (λ c. if c then some piece else pieces fuel nfl (cur + piece) (rem - piece) l k)
                    (not_here (fl == l) cur k (omega (arith, b))))
    ]

  -- On a valid allocator, `power2_allocator_free_list_assert` of a gap between blocks in use fails
  -- none of its assertions and ends.
  pub power2_allocator_free_list_assert-IsGap :
      (al : Allocator judy) (s e : ℕ)
      → IsValid judy al
      → IsGap (blocks_of judy al) al.total_size s e
      → power2_allocator_free_list_assert al s (e - s) ≡ ok tt
  unfolding power2_allocator_free_list_assert
  power2_allocator_free_list_assert-IsGap al s e valid gap =
      let below = IsEnd-le (blocks_of judy al) al.total_size e valid.blocks gap.ends in
      let h = valid.small in
      let ordered = gap.ordered in
      check_loop-ok al (has_lists judy al valid) valid.few (suc (e - s)) s (e - s) (omega arith)
        (omega arith) (λ l k p q. valid.gaps s e gap l k p (omega arith))
