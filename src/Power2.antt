-- ===== src/Power2.antt =====
-- src/power2_allocator/power2_allocator.c: the state and the helpers on its lists. A free list is a
-- JudyL array of free sizes by index, one list for each logarithm; the list in use is a JudyL array
-- of sizes by index. Numbers are `uint32_t`, and a result of type `int` is its 32-bit pattern.
-- `1 << k` is `2 ^ k`. A loop takes fuel, one round for each index it may pass and one to end.
pub mod Calls
pub mod Bulk
pub mod Pieces
pub mod Cut
pub mod Align
pub mod Take
pub mod Insert
pub mod Remove
pub mod RoundTrip
pub mod Gaps
pub mod Blocks
pub mod Ranges
pub mod Valid
pub mod Neighbours
pub mod Freed
pub mod Keep
pub mod Chunk
pub mod Found
pub mod Place
pub mod Alloc
pub mod Allocate
pub mod Create
pub mod History
pub mod Check
pub mod SelfCheck
pub mod Marks
pub mod MarkLists
pub mod Once
pub mod Verified
pub mod Passes
pub mod Multiple
pub mod Release
pub mod Reserved
pub mod Reserve
mod Tests
mod HistoryTests
mod SelfCheckTests
use mathlib.Core.Bool.{not}
use target_utils.Base.{
  ℕ, zero, suc, ◌+◌, ◌/◌, ◌%◌, ◌^◌, Bool, true, false, minus_one, u32, add32, sub32, ltb, leb, ◌==◌,
  if◌then◌else◌,
}
use target_utils.Base.Run.{Run, ok, abort, out_of_fuel, ◌>>=◌, ◌>>◌, bf_sys_assert}
use target_utils.Judy.One.{Rc, jerr, rc_zero, rc_one}
use target_utils.Judy.Many.{JudyL, Pointer, pjerr, null, slot}
use target_utils.BitUtils.{ctz, log2_uint32_ceil}

-- The logarithm of the next chunk: at most the alignment of the index, the logarithm of what is
-- left, and the last list.
unfoldable pub free_log2_of : ℕ → ℕ → ℕ → ℕ
free_log2_of no_free_lists cur_index rem_size =
    let tz = ctz cur_index in
    let log2_size = log2_uint32_ceil rem_size in
    let free_log2 = if ltb tz log2_size then tz else log2_size in
    if leb no_free_lists free_log2 then sub32 no_free_lists 1 else free_log2

-- The size of that chunk.
abbrev pub piece_of : ℕ → ℕ → ℕ
piece_of free_log2 rem_size = if ltb rem_size (2 ^ free_log2) then rem_size else 2 ^ free_log2

-- A return code that is not JERR and not 0, or is JERR: the test `assert(Rc_int)`.
abbrev pub is_nonzero : Rc → Bool
is_nonzero rc_zero = false
is_nonzero rc_one = true
is_nonzero jerr = true

module _ (judy : JudyL) where
  open judy use {Arr, jli, store, jld, jlg, jlf, jln, jlp}

  pub record Allocator : Type 0 where
    pub max_size : ℕ
    pub total_size : ℕ
    pub no_free_lists : ℕ
    pub free_lists : ℕ → Arr
    pub inuse_list : Arr

  -- `free_lists[log2]` written.
  abbrev pub set_list : Allocator → ℕ → Arr → Allocator
  set_list al log2 a = record al { free_lists = λ l. if log2 == l then a else al.free_lists l }

  module _ (asserts : Bool) where
    -- The three assertions that open a round of each loop over chunks.
    abbrev pub round_asserts : ℕ → ℕ → Run (Unit {0})
    round_asserts free_log2 cur_index = do
      bf_sys_assert asserts (ltb free_log2 32)
      bf_sys_assert asserts (cur_index % 2 ^ free_log2 == 0)
      bf_sys_assert asserts (leb (ctz (2 ^ free_log2)) (ctz cur_index))

    -- What follows JLG in a round of `power2_allocator_remove_free_index`. JLG does not return
    -- PJERR, through which the code would read.
    abbrev pub remove_at : Allocator → ℕ → ℕ → ℕ → Pointer → Run (Allocator × ℕ)
    remove_at al free_log2 cur_index rem_size pjerr = abort
    remove_at al free_log2 cur_index rem_size null = do bf_sys_assert asserts false; ok (al, 1)
    remove_at al free_log2 cur_index rem_size (slot i tmp_size) = do
      let (a, rc) = jld (al.free_lists free_log2) cur_index
      bf_sys_assert asserts (is_nonzero rc)
      bf_sys_assert asserts (u32 tmp_size == piece_of free_log2 rem_size)
      ok (set_list al free_log2 a, 0)

    abbrev pub remove_piece : Allocator → ℕ → ℕ → Run (Allocator × ℕ)
    remove_piece al cur_index rem_size = do
      let free_log2 = free_log2_of al.no_free_lists cur_index rem_size
      round_asserts free_log2 cur_index
      remove_at al free_log2 cur_index rem_size (jlg (al.free_lists free_log2) cur_index)

    -- `while (rem_size)`.
    unfoldable pub remove_loop : ℕ → Allocator → ℕ → ℕ → Run (Allocator × ℕ)
    remove_loop zero al cur_index rem_size = out_of_fuel
    remove_loop (suc fuel) al cur_index rem_size = elim (rem_size == 0) [
      | true ↦ ok (al, 0)
      | false ↦ do
        (al', rc) ← remove_piece al cur_index rem_size
        let piece = piece_of (free_log2_of al.no_free_lists cur_index rem_size) rem_size
        elim (rc == 0) [
          | true ↦ remove_loop fuel al' (add32 cur_index piece) (sub32 rem_size piece)
          | false ↦ ok (al', rc)
        ]
    ]

    unfoldable pub power2_allocator_remove_free_index : Allocator → ℕ → ℕ → Run (Allocator × ℕ)
    power2_allocator_remove_free_index al free_index size =
        remove_loop (suc size) al free_index size

    -- `while (Pfree)` from a pointer on, to the first free size that is enough.
    unfoldable pub find_fit : ℕ → Arr → ℕ → Pointer → Run Pointer
    find_fit zero a size p = out_of_fuel
    find_fit (suc fuel) a size pjerr = abort
    find_fit (suc fuel) a size null = ok null
    find_fit (suc fuel) a size (slot i v) = elim (leb size v) [
      | true ↦ ok (slot i v)
      | false ↦ find_fit fuel a size (jln a i)
    ]

    -- What follows the search in `power2_allocator_remove_one_free`: the index or -1, and
    -- `*free_size`.
    abbrev pub take_fit : Allocator → ℕ → ℕ → Pointer → Run (Allocator × ℕ × ℕ)
    take_fit al log2 free_size pjerr = abort
    take_fit al log2 free_size null = ok (al, minus_one, free_size)
    take_fit al log2 free_size (slot i v) = do
      let (a, rc) = jld (al.free_lists log2) i
      bf_sys_assert asserts (is_nonzero rc)
      ok (set_list al log2 a, u32 i, u32 v)

    -- A free list has at most `total_size` entries.
    unfoldable pub power2_allocator_remove_one_free :
        Allocator → ℕ → ℕ → ℕ → Run (Allocator × ℕ × ℕ)
    unfolding find_fit
    power2_allocator_remove_one_free al log2 size free_size =
        if leb al.no_free_lists log2 then ok (al, minus_one, free_size) else (do
          bf_sys_assert asserts (leb size (2 ^ log2))
          p ←
              find_fit (suc (suc al.total_size)) (al.free_lists log2) size
                (jlf (al.free_lists log2) 0)
          take_fit al log2 free_size p)

    -- What follows JLI in a round of `power2_allocator_insert_one_free`. JLI does not return NULL,
    -- through which the code would read.
    abbrev pub insert_at : Allocator → ℕ → ℕ → Arr × Pointer → Run (Allocator × ℕ)
    insert_at al free_log2 rem_size (a, pjerr) = do
      bf_sys_assert asserts false
      ok (set_list al free_log2 a, minus_one)
    insert_at al free_log2 rem_size (a, null) = abort
    insert_at al free_log2 rem_size (a, slot i v) = do
      bf_sys_assert asserts (v == 0)
      bf_sys_assert asserts
          (if ltb rem_size (2 ^ free_log2) then ltb (2 ^ free_log2 / 2) rem_size else true)
      ok (set_list al free_log2 (store a i (piece_of free_log2 rem_size)), 0)

    abbrev pub insert_piece : Allocator → ℕ → ℕ → Run (Allocator × ℕ)
    insert_piece al cur_index rem_size = do
      let free_log2 = free_log2_of al.no_free_lists cur_index rem_size
      round_asserts free_log2 cur_index
      insert_at al free_log2 rem_size (jli (al.free_lists free_log2) cur_index)

    -- `while (rem_size)`.
    unfoldable pub insert_loop : ℕ → Allocator → ℕ → ℕ → Run (Allocator × ℕ)
    insert_loop zero al cur_index rem_size = out_of_fuel
    insert_loop (suc fuel) al cur_index rem_size = elim (rem_size == 0) [
      | true ↦ ok (al, 0)
      | false ↦ do
        (al', rc) ← insert_piece al cur_index rem_size
        let piece = piece_of (free_log2_of al.no_free_lists cur_index rem_size) rem_size
        elim (rc == 0) [
          | true ↦ insert_loop fuel al' (add32 cur_index piece) (sub32 rem_size piece)
          | false ↦ ok (al', rc)
        ]
    ]

    unfoldable pub power2_allocator_insert_one_free : Allocator → ℕ → ℕ → Run (Allocator × ℕ)
    power2_allocator_insert_one_free al free_index size = insert_loop (suc size) al free_index size

    abbrev pub mark_at : Allocator → ℕ → Arr × Pointer → Run (Allocator × ℕ)
    mark_at al size (a, pjerr) = do
      bf_sys_assert asserts false
      ok (record al { inuse_list = a }, minus_one)
    mark_at al size (a, null) = abort
    mark_at al size (a, slot i v) = do
      bf_sys_assert asserts (v == 0)
      ok (record al { inuse_list = store a i size }, 0)

    unfoldable pub power2_allocator_mark_inuse : Allocator → ℕ → ℕ → Run (Allocator × ℕ)
    power2_allocator_mark_inuse al alloc_index size =
        mark_at al size (jli al.inuse_list alloc_index)

    abbrev pub size_at : Pointer → Run ℕ
    size_at pjerr = abort
    size_at null = ok minus_one
    size_at (slot i v) = do bf_sys_assert asserts (not (v == 0)); ok (u32 v)

    unfoldable pub power2_allocator_get_index_size : Allocator → ℕ → Run ℕ
    power2_allocator_get_index_size al alloc_index = size_at (jlg al.inuse_list alloc_index)

    unfoldable pub power2_allocator_mark_free : Allocator → ℕ → Run Allocator
    power2_allocator_mark_free al alloc_index = do
      let (a, rc) = jld al.inuse_list alloc_index
      bf_sys_assert asserts (elim rc [ rc_one ↦ true | _ ↦ false ])
      ok (record al { inuse_list = a })

  -- The index or -1, and `*size`. JLN and JLP do not return PJERR.
  abbrev pub block_at : Pointer → ℕ × ℕ
  block_at pjerr = (minus_one, 0)
  block_at null = (minus_one, 0)
  block_at (slot i v) = (u32 i, u32 v)

  unfoldable pub power2_allocator_get_next_inuse_block : Allocator → ℕ → ℕ × ℕ
  power2_allocator_get_next_inuse_block al alloc_index = block_at (jln al.inuse_list alloc_index)

  unfoldable pub power2_allocator_get_prev_inuse_block : Allocator → ℕ → ℕ × ℕ
  power2_allocator_get_prev_inuse_block al alloc_index = block_at (jlp al.inuse_list alloc_index)
