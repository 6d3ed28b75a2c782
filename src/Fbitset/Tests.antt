-- ===== src/Fbitset/Tests.antt =====
-- Runs of the bit set on lists of bits, and its theorem at an input.
use target_utils.Base.{◌≡◌, refl, arith, true, false, [], ◌∷◌, minus_one, if◌then◌else◌}
use target_utils.Base.Run.{ok, Returns}
use target_utils.Judy.Bits.{bits, bits-HasMemory}
use target_utils.Judy.Bits.Search.{write, up, down}
use target_utils.Fbitset.{
  Fbitset, prev_loop, next_loop, bf_fbs_set, bf_fbs_prev_clr_contiguous,
  bf_fbs_first_clr_contiguous, bf_fbs_first_set,
}
use target_utils.Fbitset.Bit.{Written, bf_fbs_set-Returns}

program : Unit {0}
unfolding write up down prev_loop next_loop bf_fbs_set bf_fbs_prev_clr_contiguous
    bf_fbs_first_clr_contiguous bf_fbs_first_set
program = tt

-- Of eight bits, those at 0, 2 and 5 are set.
abbrev some_set : Fbitset bits
some_set = record { width = 8; fbs = true ∷ false ∷ true ∷ false ∷ false ∷ true ∷ [] }

first_two : bf_fbs_first_clr_contiguous bits true some_set minus_one 2 ≡ ok 3
unfolding program
first_two = refl

first_three : bf_fbs_first_clr_contiguous bits true some_set minus_one 3 ≡ ok minus_one
unfolding program
first_three = refl

last_two : bf_fbs_prev_clr_contiguous bits true some_set 6 2 ≡ ok 3
unfolding program
last_two = refl

second_set : bf_fbs_first_set bits some_set 0 ≡ 2
unfolding program
second_set = refl

bf_fbs_set-Returns_example :
    Returns
      (bf_fbs_set bits true some_set 4 (if true then 1 else 0))
      (Written bits true some_set 4 true)
bf_fbs_set-Returns_example =
    bf_fbs_set-Returns bits true bits-HasMemory some_set 4 true (omega arith) (omega arith)
