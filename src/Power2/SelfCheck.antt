-- ===== src/Power2/SelfCheck.antt =====
-- `power2_allocator_assert` of src/power2_allocator/power2_allocator.c, the self-check of an allocator.
-- It marks the indexes of the free lists and those in use in two Judy1 arrays.
use target_utils.Base.{
  ℕ, zero, suc, ◌+◌, ◌/◌, ◌^◌, Bool, true, false, not, Option, none, some, u32, add32, sub32, add64,
  ltb, leb, ◌==◌, if◌then◌else◌,
}
use target_utils.Base.Run.{Run, ok, abort, out_of_fuel, ◌>>=◌, ◌>>◌, bf_sys_assert}
use target_utils.Judy.One.{Judy1}
use target_utils.Judy.Many.{JudyL, Pointer, pjerr, null, slot}
use target_utils.Power2.{Allocator, is_nonzero}
use target_utils.Power2.Check.{check_loop, power2_allocator_free_list_assert}

abbrev pub is_none : Option ℕ → Bool
is_none none = true
is_none (some i) = false

module _ (judy : JudyL) (judy1 : Judy1) (asserts : Bool) where
  open judy1 use {Arr, empty, test, j1s, j1f}

  -- `for (i = index; i < index + size; i++)`, with a round for each index and one to end. `i` has 32
  -- bits and the end 64.
  unfoldable pub mark_range : ℕ → Arr → ℕ → ℕ → Run Arr
  mark_range zero marked i end = out_of_fuel
  mark_range (suc fuel) marked i end = elim (ltb i end) [
    | false ↦ ok marked
    | true ↦ do
      let (marked', rc) = j1s marked i
      bf_sys_assert asserts (is_nonzero rc)
      mark_range fuel marked' (add32 i 1) end
  ]

  -- `while (Pfree)` from a pointer on. JLF and JLN do not return PJERR.
  unfoldable pub mark_list : ℕ → ℕ → judy.Arr → Arr → Pointer → Run Arr
  unfolding mark_range
  mark_list zero log2_index list marked p = out_of_fuel
  mark_list (suc fuel) log2_index list marked pjerr = abort
  mark_list (suc fuel) log2_index list marked null = ok marked
  mark_list (suc fuel) log2_index list marked (slot index v) = do
    let size = u32 v
    bf_sys_assert asserts (leb size (2 ^ log2_index))
    bf_sys_assert asserts (ltb (2 ^ log2_index / 2) size)
    marked' ← mark_range (suc size) marked (u32 index) (add64 index size)
    mark_list fuel log2_index list marked' (judy.jln list index)

  -- The loop over the free lists, with the lists left.
  unfoldable pub mark_lists : ℕ → Allocator judy → ℕ → Arr → Run Arr
  unfolding mark_list
  mark_lists zero al log2_index marked = ok marked
  mark_lists (suc n) al log2_index marked = do
    let list = al.free_lists log2_index
    marked' ← mark_list (suc (suc al.total_size)) log2_index list marked (judy.jlf list 0)
    mark_lists n al (log2_index + 1) marked'

  -- The first `while (Pinuse)`.
  unfoldable pub mark_inuse : ℕ → judy.Arr → Arr → Pointer → Run Arr
  unfolding mark_range
  mark_inuse zero list marked p = out_of_fuel
  mark_inuse (suc fuel) list marked pjerr = abort
  mark_inuse (suc fuel) list marked null = ok marked
  mark_inuse (suc fuel) list marked (slot index v) = do
    marked' ← mark_range (suc v) marked (u32 index) (add64 index v)
    mark_inuse fuel list marked' (judy.jln list index)

  -- `for (i = 0; i < allocator->total_size; i++)`, with the rounds left.
  unfoldable pub check_overlap : ℕ → ℕ → Arr → Arr → Run (Unit {0})
  check_overlap zero i free_array inuse_array = ok tt
  check_overlap (suc n) i free_array inuse_array = do
    bf_sys_assert asserts
        (if test free_array i then not (test inuse_array i) else test inuse_array i)
    check_overlap n (i + 1) free_array inuse_array

  -- The second `while (Pinuse)`, which leaves `free_index`.
  unfoldable pub check_gaps : ℕ → Allocator judy → ℕ → Pointer → Run ℕ
  unfolding check_loop power2_allocator_free_list_assert
  check_gaps zero al free_index p = out_of_fuel
  check_gaps (suc fuel) al free_index pjerr = abort
  check_gaps (suc fuel) al free_index null = ok free_index
  check_gaps (suc fuel) al free_index (slot index v) = do
    power2_allocator_free_list_assert judy asserts al free_index (sub32 (u32 index) free_index)
    check_gaps fuel al (u32 (add64 index v)) (judy.jln al.inuse_list index)

  -- The free range behind the last block.
  abbrev pub check_last : Allocator judy → ℕ → Run (Unit {0})
  check_last al free_index = elim (free_index == al.total_size) [
    | true ↦ ok tt
    | false ↦
        power2_allocator_free_list_assert judy asserts al free_index
          (sub32 al.total_size free_index)
  ]

  -- The rest of the check once the indexes are marked.
  abbrev pub check_marked : Allocator judy → Arr → Arr → Run (Unit {0})
  check_marked al free_array inuse_array = do
    check_overlap al.total_size 0 free_array inuse_array
    free_index ← check_gaps (suc (suc al.total_size)) al 0 (judy.jlf al.inuse_list 0)
    check_last al free_index
    bf_sys_assert asserts (is_none (j1f free_array al.total_size))
    bf_sys_assert asserts (is_none (j1f inuse_array al.total_size))

  unfoldable pub power2_allocator_assert : Option (Allocator judy) → Run (Unit {0})
  unfolding mark_list mark_range mark_lists mark_inuse check_overlap check_gaps check_loop
      power2_allocator_free_list_assert
  power2_allocator_assert none = ok tt
  power2_allocator_assert (some al) = do
    free_array ← mark_lists al.no_free_lists al 0 empty
    inuse_array ←
        mark_inuse (suc (suc al.total_size)) al.inuse_list empty (judy.jlf al.inuse_list 0)
    check_marked al free_array inuse_array
