-- ===== src/Power2/HistoryTests.antt =====
-- Histories of the power-of-two allocator on lists of slots, its self-check, and blocks in a row.
use target_utils.Base.{ℕ, ◌≡◌, refl, arith, true, Option, none, some, []}
use target_utils.Base.Run.{Run, Returns, ok, ◌>>=◌}
use target_utils.Judy.Slots.{slots, slots-HasMemory}
use target_utils.Judy.Slots.Search.{write, up, down}
use target_utils.BitUtils.{bit_length, trailing_zeros, log2_uint32_ceil, ctz, is_uint32_power2}
use target_utils.Power2.{
  Allocator, free_log2_of, insert_loop, remove_loop, find_fit, power2_allocator_insert_one_free,
  power2_allocator_remove_free_index, power2_allocator_remove_one_free, power2_allocator_mark_inuse,
  power2_allocator_mark_free, power2_allocator_get_index_size,
  power2_allocator_get_next_inuse_block, power2_allocator_get_prev_inuse_block,
}
use target_utils.Power2.Calls.{
  create_loop, take_chunk, split_at, split_chunk, release_block, reserve_block, sum_inuse,
  power2_allocator_create, power2_allocator_alloc, power2_allocator_release,
  power2_allocator_reserve, power2_allocator_usage, power2_allocator_alloc_count_by_size,
}
use target_utils.Power2.Multiple.{
  chunks_in_row, find_row, take_row, mark_row, use_row, power2_allocator_alloc_int_v2,
  power2_allocator_alloc_multiple, free_all, power2_allocator_destroy,
}
use target_utils.Power2.Pieces.{pieces}
use target_utils.Power2.Insert.{free_at}
use target_utils.Power2.Valid.{blocks_of}
use target_utils.Power2.Create.{Created, power2_allocator_create-Created}
use target_utils.Judy.Bits.{bits, bits-HasMemory}
use target_utils.Power2.SelfCheck.{power2_allocator_assert}
use target_utils.Power2.Passes.{power2_allocator_assert-IsValid, power2_allocator_assert-Reached}
use target_utils.Power2.History.{Reached, created, called, allocated, IsSound, Reached-IsSound}

history : Unit {0}
unfolding bit_length trailing_zeros log2_uint32_ceil ctz is_uint32_power2 write up down free_log2_of
    insert_loop remove_loop find_fit power2_allocator_insert_one_free
    power2_allocator_remove_free_index power2_allocator_remove_one_free power2_allocator_mark_inuse
    power2_allocator_mark_free power2_allocator_get_index_size power2_allocator_get_next_inuse_block
    power2_allocator_get_prev_inuse_block create_loop take_chunk split_at split_chunk release_block
    reserve_block sum_inuse power2_allocator_create power2_allocator_alloc power2_allocator_release
    power2_allocator_reserve power2_allocator_usage power2_allocator_alloc_count_by_size pieces
    chunks_in_row find_row take_row mark_row use_row power2_allocator_alloc_int_v2
    power2_allocator_alloc_multiple free_all power2_allocator_destroy
history = tt

power2_allocator_create-Created_example :
    Returns (power2_allocator_create slots true true true 8 5) (Created slots true true true 8 5)
power2_allocator_create-Created_example =
    power2_allocator_create-Created slots true slots-HasMemory true true 8 5 (omega arith)
      (omega arith) (omega arith)

abbrev none_yet : Allocator slots
none_yet = record {
  max_size = 0;
  total_size = 0;
  no_free_lists = 0;
  free_lists = λ l. [];
  inuse_list = [];
}

-- An allocator of five blocks of eight, from which a block of three is taken and given back.
abbrev state_or : Allocator slots → Run (Allocator slots × ℕ) → Allocator slots
state_or other (ok (al, n)) = al
state_or other _ = other

abbrev number_of : Run (Allocator slots × ℕ) → ℕ
number_of (ok (al, n)) = n
number_of _ = 0

abbrev made_or : Allocator slots → Run (Option (Allocator slots)) → Allocator slots
made_or other (ok (some al)) = al
made_or other _ = other

abbrev five : Allocator slots
five = made_or none_yet (power2_allocator_create slots true true true 8 5)

abbrev taken : Run (Allocator slots × ℕ)
taken = power2_allocator_alloc slots true five 3

five-Reached : Reached slots true 8 5 five
unfolding history
five-Reached = created five refl

taken_number : number_of taken ≡ 4
unfolding history
taken_number = refl

taken-Reached : Reached slots true 8 5 (state_or five taken)
unfolding history
taken-Reached =
    called five (state_or five taken) five-Reached
      (allocated 3 (number_of taken) (omega arith) refl)

Reached-IsSound_example : IsSound slots true 8 5 (state_or five taken)
Reached-IsSound_example =
    Reached-IsSound slots true slots-HasMemory 8 5 (omega arith) (omega arith) (omega arith)
      (state_or five taken) taken-Reached

-- Two blocks of five in a row, at indexes 0 and 8, and the chunk behind the first one.
abbrev two_blocks : Run (ℕ × Option ℕ × Option ℕ × Option ℕ)
two_blocks = do
  (al, i) ← power2_allocator_alloc_multiple slots true five 5 2
  ok (i, blocks_of slots al 0, blocks_of slots al 8, free_at slots al 1 6)

two_in_row : two_blocks ≡ ok (0, some 5, some 5, some 2)
unfolding history
two_in_row = refl

-- No chunk is left in any list.
abbrev destroyed : Option (Allocator slots) → Option ℕ
destroyed none = none
destroyed (some al) = free_at slots al 3 0

destroyed_empty : destroyed (power2_allocator_destroy slots (some five)) ≡ none
unfolding history
destroyed_empty = refl

taken-IsSound : IsSound slots true 8 5 (state_or five taken)
taken-IsSound =
    Reached-IsSound slots true slots-HasMemory 8 5 (omega arith) (omega arith) (omega arith)
      (state_or five taken) taken-Reached

power2_allocator_assert-IsValid_example :
    power2_allocator_assert slots bits true (some (state_or five taken)) ≡ ok tt
power2_allocator_assert-IsValid_example =
    power2_allocator_assert-IsValid slots bits true bits-HasMemory (state_or five taken)
      taken-IsSound.0

power2_allocator_assert-Reached_example :
    power2_allocator_assert slots bits true (some (state_or five taken)) ≡ ok tt
power2_allocator_assert-Reached_example =
    power2_allocator_assert-Reached slots bits true slots-HasMemory bits-HasMemory 8 5 (omega arith)
      (omega arith) (omega arith) (state_or five taken) taken-Reached
