-- ===== src/Id.antt =====
-- src/id/id.c: an allocator of ids over a Judy1 array of the ids in use. An id is a number below
-- `size`, or one more than such a number if the allocator is not zero-based. Pointers to allocators
-- are not NULL, but where the code tests for NULL; a result of type `int` is its 32-bit pattern.
pub mod Room
pub mod Allocate
pub mod InUse
pub mod Ids
pub mod Single
pub mod Release
pub mod Listing
mod Tests
use target_utils.Base.{
  not, ℕ, zero, suc, ◌+◌, Bool, true, false, Option, none, some, u32, sub32, sub64, add64,
  minus_one, word32, ◌==◌, if◌then◌else◌, ltb, leb,
}
use target_utils.Base.Run.{Run, ok, out_of_fuel, ◌>>=◌, ◌>>◌, bf_sys_assert}
use target_utils.Judy.One.{Judy1, Rc}

-- The id of an index.
abbrev pub id_of : Bool → ℕ → ℕ
id_of true index = u32 index
id_of false index = u32 (index + 1)

-- `next_set` before the loop: no set bit means up to the end.
abbrev pub next_or : ℕ → Option ℕ → ℕ
next_or size none = size
next_or size (some k) = k

-- In `bf_id_allocator_get_first`, `id` keeps its initial 0 where the allocator is zero-based.
abbrev pub first_id : Bool → Option ℕ → ℕ
first_id zero_based none = minus_one
first_id false (some index) = u32 (index + 1)
first_id true (some index) = 0

abbrev pub next_id : Bool → Option ℕ → ℕ
next_id zero_based none = minus_one
next_id false (some index) = u32 (index + 1)
next_id true (some index) = u32 index

-- The index of an id; 0 is no id unless the allocator is zero-based.
abbrev pub index_of : Bool → Bool → ℕ → Run ℕ
index_of asserts true id = ok id
index_of asserts false id = do bf_sys_assert asserts (ltb 0 id); ok (sub32 id 1)

module _ (judy : Judy1) where
  open judy use {Arr, empty, test, j1s, j1u, j1f, j1n, j1fe, j1n_left, j1fe_left}

  pub record Allocator : Type 0 where
    pub array : Arr
    pub size : ℕ
    pub zero_based : Bool

  unfoldable pub bf_id_allocator_new : ℕ → Bool → Allocator
  bf_id_allocator_new initial_size zero_based = record {
    array = empty;
    size = initial_size;
    zero_based = zero_based;
  }

  -- `while (next_set - first_empty < count)`, on 64-bit words: a start, or `none` for `return -1`.
  -- Where J1N fails the code goes on with what the call left in `Index`.
  unfoldable pub search_loop : Arr → ℕ → ℕ → ℕ → ℕ → ℕ → Run (Option ℕ)
  search_loop a size count zero next_set first_empty = out_of_fuel
  search_loop a size count (suc fuel) next_set first_empty =
      elim (ltb (sub64 next_set first_empty) count) [
        | false ↦ ok (some first_empty)
        | true ↦ elim (j1fe a next_set) [
          | none ↦ ok none
          | some e ↦ elim (j1n a e) [
            | none ↦ elim (ltb (sub64 size (j1n_left a e)) count) [
              | true ↦ ok none
              | false ↦ search_loop a size count fuel next_set e
            ]
            | some k ↦ search_loop a size count fuel k e
          ]
        ]
      ]

  -- `for (i = 0; i < count; i++) J1S(...)`, which ignores the return codes.
  unfoldable pub set_run : ℕ → ℕ → Arr → Arr
  set_run zero index a = a
  set_run (suc n) index a = set_run n (add64 index 1) (j1s a index).0

  abbrev pub finish_search : Allocator → ℕ → Option ℕ → Allocator × ℕ
  finish_search al count none = (al, minus_one)
  finish_search al count (some index) =
      if ltb al.size index
      then (al, minus_one)
      else (record al { array = set_run count index al.array }, id_of al.zero_based index)

  -- A loop that ends takes at most two rounds more than there are indexes.
  abbrev pub fuel_for : Allocator → ℕ
  fuel_for al = al.size + 2

  -- From the first empty index, within the size, on.
  abbrev pub allocate_from : Allocator → ℕ → ℕ → Run (Allocator × ℕ)
  allocate_from al count first_empty =
      if leb al.size first_empty
      then ok (al, minus_one)
      else if count == 1
      then ok (record al { array = (j1s al.array first_empty).0 }, id_of al.zero_based first_empty)
      else (do
        found ←
            search_loop al.array al.size count (fuel_for al)
              (next_or al.size (j1n al.array first_empty)) first_empty
        ok (finish_search al count found))

  -- The second J1FE, if the first answer lies beyond the size.
  abbrev pub wrap_around : Allocator → ℕ → ℕ
  wrap_around al index =
      if leb al.size index
      then elim (j1fe al.array 0) [ none ↦ j1fe_left al.array 0 | some k ↦ k ]
      else index

  unfoldable pub bf_id_allocator_allocate_contiguous : Allocator → ℕ → Run (Allocator × ℕ)
  bf_id_allocator_allocate_contiguous al count = elim (j1fe al.array 0) [
    | none ↦ ok (al, minus_one)
    | some index ↦ allocate_from al count (wrap_around al index)
  ]

  unfoldable pub bf_id_allocator_allocate : Allocator → Run (Allocator × ℕ)
  bf_id_allocator_allocate al = bf_id_allocator_allocate_contiguous al 1

  module _ (asserts : Bool) where
    unfoldable pub bf_id_allocator_release : Allocator → ℕ → Run Allocator
    bf_id_allocator_release al id = do
      index ← index_of asserts al.zero_based id
      ok (record al { array = (j1u al.array index).0 })

    unfoldable pub bf_id_allocator_set : Allocator → ℕ → Run Allocator
    bf_id_allocator_set al id = do
      index ← index_of asserts al.zero_based id
      ok (record al { array = (j1s al.array index).0 })

  unfoldable pub bf_id_allocator_is_set : Allocator → ℕ → Bool
  bf_id_allocator_is_set al id =
      if al.zero_based
      then test al.array id
      else if ltb id 1
      then false
      else test al.array (sub32 id 1)

  -- `none` is a NULL pointer here and in `bf_id_allocator_get_next`.
  unfoldable pub bf_id_allocator_get_first : Option Allocator → ℕ
  bf_id_allocator_get_first none = minus_one
  bf_id_allocator_get_first (some al) = first_id al.zero_based (j1f al.array 0)

  abbrev pub next_after : Allocator → Bool → ℕ → ℕ
  next_after al true id = next_id true (j1n al.array id)
  next_after al false zero = minus_one
  next_after al false (suc index) = next_id false (j1n al.array index)

  unfoldable pub bf_id_allocator_get_next : Option Allocator → ℕ → ℕ
  bf_id_allocator_get_next none id = minus_one
  bf_id_allocator_get_next (some al) id = next_after al al.zero_based id

  -- J1FA, and the record is freed.
  unfoldable pub bf_id_allocator_destroy : Allocator → Arr
  bf_id_allocator_destroy al = empty

  -- The body returns at once.
  unfoldable pub bf_id_allocator_copy : Allocator → Allocator → Allocator × Allocator
  bf_id_allocator_copy dst src = (dst, src)
