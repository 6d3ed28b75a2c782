-- ===== src/Fbitset.antt =====
-- src/fbitset/fbitset.c: a set of bits over a Judy1 array. Pointers to sets are not NULL. An `int` is
-- its 32-bit pattern. The calls of C's `assert` are `bf_sys_assert` here: both end the process, in a
-- build that keeps them. A search loop takes fuel, one round for each index it may pass and one to
-- end.
pub mod Bit
mod Tests
use target_utils.Base.{
  ℕ, zero, suc, ◌+◌, Bool, true, false, not, Option, none, some, ◌&&◌, ◌||◌, minus_one, u32, add32,
  sub32, add64, sub64, ltb, leb, ◌==◌, if◌then◌else◌,
}
use target_utils.Base.Run.{Run, ok, abort, out_of_fuel, ◌>>=◌, ◌>>◌, bf_sys_assert}
use target_utils.Judy.One.{Judy1, Rc, jerr, rc_zero, rc_one}

abbrev pub is_negative : ℕ → Bool
is_negative position = leb 0x8000_0000 position

-- The test `if (Rc_int)`.
abbrev pub is_true : Rc → Bool
is_true rc_zero = false
is_true rc_one = true
is_true jerr = true

module _ (judy : Judy1) where
  open judy use {Arr, empty, test, j1s, j1u, j1f, j1n, j1p, j1fe, j1ne, j1le, j1pe}

  pub record Fbitset : Type 0 where
    pub width : ℕ
    pub fbs : Arr

  -- From the free index that ends a run downwards; `last_free` equals it where a round begins.
  unfoldable pub prev_loop : ℕ → Arr → ℕ → ℕ → Run ℕ
  prev_loop zero a count free_index = out_of_fuel
  prev_loop (suc fuel) a count free_index =
      let last_free : ℕ = elim (j1p a free_index) [ none ↦ 0 | some k ↦ k + 1 ] in
      elim (leb count (sub64 (add64 free_index 1) last_free)) [
        | true ↦ ok (u32 (sub64 (add64 free_index 1) count))
        | false ↦ elim (j1pe a last_free) [
          | none ↦ ok minus_one
          | some k ↦ prev_loop fuel a count k
        ]
      ]

  -- From the free index that begins a run upwards; `last_free` equals it where a round begins.
  unfoldable pub next_loop : ℕ → Arr → ℕ → ℕ → ℕ → Run ℕ
  next_loop zero a width count free_index = out_of_fuel
  next_loop (suc fuel) a width count free_index = elim (ltb free_index width) [
    | false ↦ ok minus_one
    | true ↦
        let last_free : ℕ = elim (j1n a free_index) [ none ↦ sub32 width 1 | some k ↦ sub64 k 1 ] in
        elim (leb count (sub64 (add64 last_free 1) free_index)) [
          | true ↦ ok (u32 free_index)
          | false ↦ elim (j1ne a last_free) [
            | none ↦ ok minus_one
            | some k ↦ next_loop fuel a width count k
          ]
        ]
  ]

  abbrev pub found_prev : Arr → ℕ → Option ℕ → Run ℕ
  found_prev a count none = ok minus_one
  found_prev a count (some free_index) =
      if count == 1
      then ok (u32 free_index)
      else prev_loop (suc (suc free_index)) a count free_index

  abbrev pub found_next : Arr → ℕ → ℕ → Option ℕ → Run ℕ
  found_next a width count none = ok minus_one
  found_next a width count (some free_index) =
      if leb width free_index
      then ok minus_one
      else if count == 1
      then ok (u32 free_index)
      else next_loop (suc (suc width)) a width count free_index

  module _ (asserts : Bool) where
    unfoldable pub bf_fbs_init : ℕ → Run Fbitset
    bf_fbs_init width = do
      bf_sys_assert asserts (ltb 0 width)
      ok (record { width = width; fbs = empty })

    -- `assert(position >= 0)` and `assert((unsigned)position < bs->width)`.
    abbrev pub position_asserts : Fbitset → ℕ → Run (Unit {0})
    position_asserts bs position = do
      bf_sys_assert asserts (not (is_negative position))
      bf_sys_assert asserts (ltb position bs.width)

    unfoldable pub bf_fbs_set : Fbitset → ℕ → ℕ → Run (Fbitset × Bool)
    bf_fbs_set bs position val = do
      position_asserts bs position
      bf_sys_assert asserts (val == 1 || val == 0)
      (if val == 0
          then (let (a, rc) = j1u bs.fbs position in ok (record bs { fbs = a }, is_true rc))
          else (let (a, rc) = j1s bs.fbs position in ok (record bs { fbs = a }, not (is_true rc))))

    unfoldable pub bf_fbs_get : Fbitset → ℕ → Run Bool
    bf_fbs_get bs position = do position_asserts bs position; ok (test bs.fbs position)

    unfoldable pub bf_fbs_prev_clr_contiguous : Fbitset → ℕ → ℕ → Run ℕ
    unfolding prev_loop
    bf_fbs_prev_clr_contiguous bs position count =
        if position == 0 || is_negative position then ok minus_one else (do
          let position = sub32 position 1
          position_asserts bs position
          bf_sys_assert asserts (not (count == 0))
          (if ltb (add32 position 1) count || leb bs.width position
              then ok minus_one
              else found_prev bs.fbs count (j1le bs.fbs position)))

    unfoldable pub bf_fbs_first_clr_contiguous : Fbitset → ℕ → ℕ → Run ℕ
    unfolding next_loop
    bf_fbs_first_clr_contiguous bs position count = do
      let position = add32 position 1
      bf_sys_assert asserts (not (count == 0))
      (if is_negative position || ltb bs.width (add32 position count) then ok minus_one else (do
        bf_sys_assert asserts (not (is_negative position))
        bf_sys_assert asserts (leb (add32 position count) bs.width)
        found_next bs.fbs bs.width count (j1fe bs.fbs position)))

  -- The assertion tests only that the pointer is not NULL.
  unfoldable pub bf_fbs_first_set : Fbitset → ℕ → ℕ
  bf_fbs_first_set bs position =
      let position = add32 position 1 in
      if is_negative position || ltb bs.width position
      then minus_one
      else elim (j1f bs.fbs position) [ none ↦ minus_one | some k ↦ u32 k ]

  -- J1FA frees the array.
  unfoldable pub bf_fbs_destroy : Fbitset → Fbitset
  bf_fbs_destroy bs = record bs { fbs = empty }
