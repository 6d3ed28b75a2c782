-- ===== src/Power2/Calls.antt =====
-- The interface of src/power2_allocator/power2_allocator.c for single blocks. Pointers to
-- allocators are not NULL. The Booleans of `power2_allocator_create` are the successes of its calls
-- of `bf_sys_calloc`.
use target_utils.Base.{
  ◌-◌, word64, ℕ, zero, suc, ◌+◌, ◌-◌, ◌%◌, ◌^◌, Bool, true, false, ◌&&◌, Option, none, some,
  minus_one, u32, add32, sub32, mul32, ltb, leb, ◌==◌, if◌then◌else◌,
}
use target_utils.Base.Run.{Run, ok, abort, out_of_fuel, ◌>>=◌, ◌>>◌, bf_sys_assert}
use target_utils.Judy.Many.{JudyL, Pointer, pjerr, null, slot}
use target_utils.BitUtils.{log2_uint32_ceil, is_uint32_power2}
use target_utils.Power2.{
  Allocator, power2_allocator_remove_free_index, power2_allocator_remove_one_free,
  power2_allocator_insert_one_free, power2_allocator_mark_inuse, power2_allocator_get_index_size,
  power2_allocator_mark_free, power2_allocator_get_next_inuse_block,
  power2_allocator_get_prev_inuse_block,
}

module _ (judy : JudyL) where
  open judy use {Arr, empty, jli, store, jlf, jln, jlc}

  module _ (asserts : Bool) where
    -- `for (i = 0, free_index = 0; i < count; i++, free_index += size)`, which ignores the code
    -- that the call returns.
    unfoldable pub create_loop : ℕ → ℕ → ℕ → Allocator judy → Run (Allocator judy)
    create_loop zero free_index size al = ok al
    create_loop (suc n) free_index size al = do
      (al', rc) ← power2_allocator_insert_one_free judy asserts al free_index size
      create_loop n (add32 free_index size) size al'

    unfoldable pub power2_allocator_create : Bool → Bool → ℕ → ℕ → Run (Option (Allocator judy))
    unfolding create_loop
    power2_allocator_create allocator_ok lists_ok size count =
        if is_uint32_power2 size && (allocator_ok && lists_ok)
        then (do
          al ← create_loop count 0 size (record {
            max_size = size;
            total_size = mul32 size count;
            no_free_lists = log2_uint32_ceil size + 1;
            free_lists = λ l. empty;
            inuse_list = empty;
          })
          ok (some al))
        else ok none

    -- `if (rc) { bf_sys_assert(0); return -1; }`.
    abbrev pub checked : Allocator judy → ℕ → Run (Allocator judy × ℕ) → Run (Allocator judy × ℕ)
    checked al rc rest = elim (rc == 0) [
      | true ↦ rest
      | false ↦ do bf_sys_assert asserts false; ok (al, minus_one)
    ]

    -- `for (i = log2; i < allocator->no_free_lists; i++)`, with the rounds left: the free chunk
    -- taken out, or -1.
    unfoldable pub take_chunk : ℕ → ℕ → ℕ → Allocator judy → ℕ → Run (Allocator judy × ℕ × ℕ)
    take_chunk zero i size al free_size = ok (al, minus_one, free_size)
    take_chunk (suc n) i size al free_size = do
      (al', free_index, free_size') ←
          power2_allocator_remove_one_free judy asserts al i size free_size
      elim (free_index == minus_one) [
        | true ↦ take_chunk n (i + 1) size al' free_size'
        | false ↦ ok (al', free_index, free_size')
      ]

    -- The last aligned index of a chunk at which the size fits. `x & ~((1 << log2) - 1)` clears the
    -- low digits.
    abbrev pub last_fit : ℕ → ℕ → ℕ → ℕ → ℕ
    last_fit log2 size free_index free_size =
        let last = sub32 (add32 free_index free_size) 1 in
        let alloc_index = last - last % 2 ^ log2 in
        if ltb (add32 free_index free_size) (add32 alloc_index size)
        then sub32 alloc_index (2 ^ log2)
        else alloc_index

    -- A block taken at an index of a chunk: the rest of the chunk is freed again.
    unfoldable pub split_at : ℕ → ℕ → Allocator judy → ℕ → ℕ → Run (Allocator judy × ℕ)
    split_at alloc_index size al free_index free_size = do
      bf_sys_assert asserts (leb free_index alloc_index)
      bf_sys_assert asserts (leb (add32 alloc_index size) (add32 free_index free_size))
      (al₁, rc₁) ←
          power2_allocator_insert_one_free judy asserts al free_index (sub32 alloc_index free_index)
      checked al₁ rc₁ (do
        (al₂, rc₂) ←
            power2_allocator_insert_one_free judy asserts al₁ (add32 alloc_index size)
              (sub32 (add32 free_index free_size) (add32 alloc_index size))
        checked al₂ rc₂ (do
          (al₃, rc₃) ← power2_allocator_mark_inuse judy asserts al₂ alloc_index size
          ok (al₃, if rc₃ == 0 then alloc_index else minus_one)))

    -- What follows the search in `power2_allocator_alloc`.
    unfoldable pub split_chunk : ℕ → ℕ → Allocator judy → ℕ → ℕ → Run (Allocator judy × ℕ)
    unfolding split_at
    split_chunk log2 size al free_index free_size =
        split_at (last_fit log2 size free_index free_size) size al free_index free_size

    unfoldable pub power2_allocator_alloc : Allocator judy → ℕ → Run (Allocator judy × ℕ)
    unfolding take_chunk split_chunk
    power2_allocator_alloc al size = if ltb al.max_size size then ok (al, minus_one) else (do
      let log2 = log2_uint32_ceil size
      (al', free_index, free_size) ← take_chunk (al.no_free_lists - log2) log2 size al 0
      elim (free_index == minus_one) [
        | true ↦ ok (al', minus_one)
        | false ↦ split_chunk log2 size al' free_index free_size
      ])

    -- Where the free range around an index starts and ends.
    abbrev pub start_of : ℕ × ℕ → ℕ
    start_of (prev_index, prev_size) =
        if prev_index == minus_one then 0 else add32 prev_index prev_size

    abbrev pub end_of : ℕ → ℕ × ℕ → ℕ
    end_of total_size (next_index, next_size) =
        if next_index == minus_one then total_size else next_index

    -- `power2_allocator_release` of a block of a known size, in a free range of known bounds.
    unfoldable pub release_block : Allocator judy → ℕ → ℕ → ℕ → ℕ → Run (Allocator judy × ℕ)
    release_block al index size free_index next_index = do
      (al₁, rc₁) ←
          power2_allocator_remove_free_index judy asserts al free_index (sub32 index free_index)
      checked al₁ rc₁ (do
        let behind = sub32 next_index (add32 index size)
        (al₂, rc₂) ← power2_allocator_remove_free_index judy asserts al₁ (add32 index size) behind
        checked al₂ rc₂ (do
          (al₃, rc₃) ←
              power2_allocator_insert_one_free judy asserts al₂ free_index
                (add32 (add32 size (sub32 index free_index)) behind)
          checked al₃ rc₃
              (do al₄ ← power2_allocator_mark_free judy asserts al₃ index; ok (al₄, 0))))

    unfoldable pub power2_allocator_release : Allocator judy → ℕ → Run (Allocator judy × ℕ)
    unfolding release_block
    power2_allocator_release al index = do
      size ← power2_allocator_get_index_size judy asserts al index
      elim (size == minus_one) [
        | true ↦ ok (al, minus_one)
        | false ↦
            release_block al index size
              (start_of (power2_allocator_get_prev_inuse_block judy al index))
              (end_of al.total_size (power2_allocator_get_next_inuse_block judy al index))
      ]

    -- `power2_allocator_reserve` in a free range of known bounds.
    unfoldable pub reserve_block : Allocator judy → ℕ → ℕ → ℕ → ℕ → Run (Allocator judy × ℕ)
    reserve_block al reserve_index reserve_size prev_free_index next_inuse_index = do
      (al₁, rc₁) ←
          power2_allocator_remove_free_index judy asserts al prev_free_index
            (sub32 next_inuse_index prev_free_index)
      checked al₁ rc₁ (do
        (al₂, rc₂) ←
            power2_allocator_insert_one_free judy asserts al₁ prev_free_index
              (sub32 reserve_index prev_free_index)
        checked al₂ rc₂ (do
          (al₃, rc₃) ←
              power2_allocator_insert_one_free judy asserts al₂ (add32 reserve_index reserve_size)
                (sub32 next_inuse_index (add32 reserve_index reserve_size))
          checked al₃ rc₃ (do
            (al₄, rc₄) ← power2_allocator_mark_inuse judy asserts al₃ reserve_index reserve_size
            ok (al₄, if rc₄ == 0 then 0 else minus_one))))

    unfoldable pub power2_allocator_reserve : Allocator judy → ℕ → ℕ → Run (Allocator judy × ℕ)
    unfolding reserve_block
    power2_allocator_reserve al reserve_index reserve_size = do
      size ← power2_allocator_get_index_size judy asserts al reserve_index
      let start = start_of (power2_allocator_get_prev_inuse_block judy al reserve_index)
      let end = end_of al.total_size (power2_allocator_get_next_inuse_block judy al reserve_index)
      elim (size == minus_one) [
        | false ↦ ok (al, 1)
        | true ↦
            if ltb reserve_index start
            then ok (al, 1)
            else if ltb end (add32 reserve_index reserve_size)
            then ok (al, 1)
            else reserve_block al reserve_index reserve_size start end
      ]

  -- `while (PValue)` over the list in use.
  unfoldable pub sum_inuse : ℕ → Arr → (ℕ → ℕ) → ℕ → Pointer → Run ℕ
  sum_inuse zero a weight count p = out_of_fuel
  sum_inuse (suc fuel) a weight count pjerr = abort
  sum_inuse (suc fuel) a weight count null = ok count
  sum_inuse (suc fuel) a weight count (slot i v) =
      sum_inuse fuel a weight (add32 count (weight v)) (jln a i)

  unfoldable pub power2_allocator_alloc_count_by_size : Allocator judy → ℕ → Run ℕ
  unfolding sum_inuse
  power2_allocator_alloc_count_by_size al size =
      if ltb al.max_size size
      then ok 0
      else sum_inuse (suc (suc al.total_size)) al.inuse_list (λ v. if v == size then 1 else 0) 0
          (jlf al.inuse_list 0)

  unfoldable pub power2_allocator_usage : Allocator judy → Run ℕ
  unfolding sum_inuse
  power2_allocator_usage al =
      sum_inuse (suc (suc al.total_size)) al.inuse_list (λ v. v) 0 (jlf al.inuse_list 0)

  unfoldable pub power2_allocator_alloc_count : Allocator judy → ℕ
  power2_allocator_alloc_count al = u32 (jlc al.inuse_list 0 (word64 - 1))

  abbrev pub index_at : Pointer → ℕ
  index_at pjerr = minus_one
  index_at null = minus_one
  index_at (slot i v) = u32 i

  unfoldable pub power2_allocator_first_alloc : Allocator judy → ℕ
  power2_allocator_first_alloc al = index_at (jlf al.inuse_list 0)

  unfoldable pub power2_allocator_next_alloc : Allocator judy → ℕ → ℕ
  power2_allocator_next_alloc al idx = index_at (jln al.inuse_list idx)
