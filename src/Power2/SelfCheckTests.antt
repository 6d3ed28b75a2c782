-- ===== src/Power2/SelfCheckTests.antt =====
-- Runs of the self-check of src/power2_allocator/power2_allocator.c.
use target_utils.Base.{◌≡◌, refl, true, none, some, [], ◌∷◌, ◌==◌, if◌then◌else◌}
use target_utils.Base.Run.{ok, abort}
use target_utils.BitUtils.{bit_length, trailing_zeros, log2_uint32_ceil, ctz}
use target_utils.Judy.Slots.{slots}
use target_utils.Judy.Slots.Search.{up, down}
use target_utils.Judy.Bits.{bits}
use target_utils.Judy.Bits.Search
use target_utils.Power2.{Allocator, free_log2_of}
use target_utils.Power2.Check.{check_loop, power2_allocator_free_list_assert}
use target_utils.Power2.SelfCheck.{
  mark_range, mark_list, mark_lists, mark_inuse, check_overlap, check_gaps, power2_allocator_assert,
}

-- A block of one at index 1 of four.
abbrev one_block : Allocator slots
one_block = record {
  max_size = 2;
  total_size = 4;
  no_free_lists = 2;
  free_lists = λ l. if l == 0 then some 1 ∷ [] else none ∷ none ∷ some 2 ∷ [];
  inuse_list = none ∷ some 1 ∷ [];
}

-- The same with a block that reaches into a free chunk.
abbrev overlap : Allocator slots
overlap = record one_block { inuse_list = none ∷ some 2 ∷ [] }

self_check_passes : power2_allocator_assert slots bits true (some one_block) ≡ ok tt
unfolding power2_allocator_assert mark_range mark_list mark_lists mark_inuse check_overlap
    check_gaps check_loop power2_allocator_free_list_assert up down free_log2_of bit_length
    trailing_zeros log2_uint32_ceil ctz Search.write Search.up
self_check_passes = refl

self_check_fails : power2_allocator_assert slots bits true (some overlap) ≡ abort
unfolding power2_allocator_assert mark_range mark_list mark_lists mark_inuse check_overlap
    check_gaps check_loop power2_allocator_free_list_assert up down free_log2_of bit_length
    trailing_zeros log2_uint32_ceil ctz Search.write Search.up
self_check_fails = refl
