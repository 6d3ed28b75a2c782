-- ===== src/Power2/Bulk.antt =====
-- The copy, and the release of several blocks, of src/power2_allocator/power2_allocator.c. The
-- Booleans of `power2_allocator_make_copy` are the successes of its calls of `bf_sys_calloc`, and no
-- result is NULL.
use target_utils.Base.{
  ℕ, zero, suc, ◌+◌, ◌^◌, Bool, true, false, ◌&&◌, Option, none, some, minus_one, add32, sub32,
  ◌==◌, if◌then◌else◌,
}
use target_utils.Base.Run.{Run, ok, abort, out_of_fuel, ◌>>=◌, ◌>>◌, bf_sys_assert}
use target_utils.Judy.Many.{JudyL, Pointer, pjerr, null, slot}
use target_utils.BitUtils.{log2_uint32_ceil}
use target_utils.Power2.{
  Allocator, set_list, power2_allocator_remove_free_index, power2_allocator_insert_one_free,
  power2_allocator_get_index_size, power2_allocator_get_next_inuse_block,
  power2_allocator_mark_free,
}
use target_utils.Power2.Calls.{checked, end_of, power2_allocator_release}

module _ (judy : JudyL) where
  open judy use {Arr, empty, jli, store, jlf, jln}

  module _ (asserts : Bool) where
    -- What JLI and the write through its result leave of the copy. JLI does not return NULL.
    abbrev pub copy_at : ℕ → Arr × Pointer → Run (Option Arr)
    copy_at v (a, pjerr) = do bf_sys_assert asserts false; ok none
    copy_at v (a, null) = abort
    copy_at v (a, slot j w) = ok (some (store a j v))

    -- `while (Pfree)` and `while (Pinuse)` over one array.
    unfoldable pub copy_loop : ℕ → Arr → Arr → Pointer → Run (Option Arr)
    copy_loop zero src dest p = out_of_fuel
    copy_loop (suc fuel) src dest pjerr = abort
    copy_loop (suc fuel) src dest null = ok (some dest)
    copy_loop (suc fuel) src dest (slot i v) = do
      o ← copy_at v (jli dest i)
      elim o [ none ↦ ok none | some a ↦ copy_loop fuel src a (jln src i) ]

    -- `for (i = 0; i < dest->no_free_lists; i++)`, with the rounds left.
    unfoldable pub copy_lists :
        ℕ → ℕ → Allocator judy → Allocator judy → Run (Option (Allocator judy))
    unfolding copy_loop
    copy_lists zero i src dest = ok (some dest)
    copy_lists (suc n) i src dest = do
      o ←
          copy_loop (suc (suc src.total_size)) (src.free_lists i) (dest.free_lists i)
            (jlf (src.free_lists i) 0)
      elim o [ none ↦ ok none | some a ↦ copy_lists n (i + 1) src (set_list judy dest i a) ]

    unfoldable pub power2_allocator_make_copy :
        Bool → Bool → Option (Allocator judy) → Run (Option (Allocator judy))
    unfolding copy_loop copy_lists
    power2_allocator_make_copy allocator_ok lists_ok none = ok none
    power2_allocator_make_copy allocator_ok lists_ok (some src) =
        if allocator_ok && lists_ok
        then (do
          o ←
              copy_lists src.no_free_lists 0 src
                (record src { free_lists = λ l. empty; inuse_list = empty })
          elim o [
            | none ↦ ok none
            | some dest ↦ do
              p ←
                  copy_loop (suc (suc src.total_size)) src.inuse_list dest.inuse_list
                    (jlf src.inuse_list 0)
              elim p [ none ↦ ok none | some a ↦ ok (some (record dest { inuse_list = a })) ]
          ])
        else ok none

    -- A round of `power2_allocator_release_multiple`.
    unfoldable pub release_one : ℕ → ℕ → Allocator judy → Run (Allocator judy × ℕ)
    release_one size index al = do
      let next_index =
          end_of judy asserts al.total_size (power2_allocator_get_next_inuse_block judy al index)
      let behind = sub32 next_index (add32 index size)
      (al₁, rc₁) ← power2_allocator_remove_free_index judy asserts al (add32 index size) behind
      checked judy asserts al₁ rc₁ (do
        (al₂, rc₂) ← power2_allocator_insert_one_free judy asserts al₁ index (add32 size behind)
        checked judy asserts al₂ rc₂
            (do al₃ ← power2_allocator_mark_free judy asserts al₂ index; ok (al₃, 0)))

    -- `for (i = 0; i < count; i++)`, with the rounds left.
    unfoldable pub release_rounds : ℕ → ℕ → ℕ → Allocator judy → Run (Allocator judy × ℕ)
    unfolding release_one
    release_rounds zero size index al = ok (al, 0)
    release_rounds (suc n) size index al = do
      (al', rc) ← release_one size index al
      elim (rc == 0) [
        | true ↦ release_rounds n size (add32 index (2 ^ log2_uint32_ceil size)) al'
        | false ↦ ok (al', rc)
      ]

    unfoldable pub power2_allocator_release_multiple :
        Allocator judy → ℕ → ℕ → Run (Allocator judy × ℕ)
    unfolding release_rounds
    power2_allocator_release_multiple al index count =
        if count == 1 then power2_allocator_release judy asserts al index else (do
          size ← power2_allocator_get_index_size judy asserts al index
          elim (size == minus_one) [
            | true ↦ ok (al, minus_one)
            | false ↦
                if log2_uint32_ceil size == sub32 al.no_free_lists 1
                then release_rounds count size index al
                else ok (al, minus_one)
          ])
