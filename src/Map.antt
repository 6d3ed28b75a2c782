-- ===== src/Map.antt =====
-- src/map/map.c: a map from unsigned longs to data pointers, over a JudyL array. A data pointer is
-- the word that is stored, NULL is 0. `bf_sys_dbgchk` only reports, and is left out.
pub mod Contents
pub mod Refinement
mod Tests
use target_utils.Base.{
  ◌-◌, word64, ℕ, Bool, true, false, Option, none, some, ◌%◌, ◌==◌, if◌then◌else◌, word32, u32,
}
use target_utils.Judy.One.{Rc, jerr, rc_zero, rc_one}
use target_utils.Judy.Many.{JudyL, Pointer, pjerr, null, slot}

pub data Status : Type 0 where
  bf_map_ok bf_map_err bf_map_no_key bf_map_key_exists : Status

module _ (judy : JudyL) where
  open judy use {Arr, empty, jli, store, jld, jlg, jlf, jln, jlc}

  -- `*map = NULL`.
  unfoldable pub bf_map_init : Arr × Status
  bf_map_init = (empty, bf_map_ok)

  -- What follows JLI, on the pointer that it returned. JLI never returns NULL.
  abbrev pub add_at : Arr → ℕ → Pointer → Arr × Status
  add_at a word pjerr = (a, bf_map_err)
  add_at a word null = (a, bf_map_err)
  add_at a word (slot i v) = if v == 0 then (store a i word, bf_map_ok) else (a, bf_map_key_exists)

  unfoldable pub bf_map_add : Arr → ℕ → ℕ → Arr × Status
  bf_map_add map key word = let (a, p) = jli map key in add_at a word p

  abbrev pub rmv_status : Rc → Status
  rmv_status jerr = bf_map_err
  rmv_status rc_zero = bf_map_no_key
  rmv_status rc_one = bf_map_ok

  unfoldable pub bf_map_rmv : Arr → ℕ → Arr × Status
  bf_map_rmv map key = let (a, rc) = jld map key in (a, rmv_status rc)

  -- `*data` is `some` word if the call writes it.
  abbrev pub read_status : Pointer → Status × Option ℕ
  read_status pjerr = (bf_map_err, none)
  read_status null = (bf_map_no_key, none)
  read_status (slot i v) = (bf_map_ok, some v)

  unfoldable pub bf_map_get : Arr → ℕ → Status × Option ℕ
  bf_map_get map key = read_status (jlg map key)

  -- The second step of `bf_map_get_rmv`, after the status of the first.
  abbrev pub then_rmv : Arr → ℕ → Status → Option ℕ → Arr × Status × Option ℕ
  then_rmv map key bf_map_ok word = let (a, sts) = bf_map_rmv map key in (a, sts, word)
  then_rmv map key sts word = (map, sts, word)

  unfoldable pub bf_map_get_rmv : Arr → ℕ → Arr × Status × Option ℕ
  unfolding bf_map_get bf_map_rmv
  bf_map_get_rmv map key = let (sts, word) = bf_map_get map key in then_rmv map key sts word

  -- `*key` and `*data` as the call leaves them: unwritten, or the entry.
  abbrev pub entry_status : Pointer → Status × Option (ℕ × ℕ)
  entry_status pjerr = (bf_map_err, none)
  entry_status null = (bf_map_no_key, none)
  entry_status (slot i v) = (bf_map_ok, some (i, v))

  unfoldable pub bf_map_get_first : Arr → Status × Option (ℕ × ℕ)
  bf_map_get_first map = entry_status (jlf map 0)

  abbrev pub then_rmv_entry : Arr → Status → Option (ℕ × ℕ) → Arr × Status × Option (ℕ × ℕ)
  then_rmv_entry map bf_map_ok (some (i, v)) =
      let (a, sts) = bf_map_rmv map i in (a, sts, some (i, v))
  then_rmv_entry map sts entry = (map, sts, entry)

  unfoldable pub bf_map_get_first_rmv : Arr → Arr × Status × Option (ℕ × ℕ)
  unfolding bf_map_get_first bf_map_rmv
  bf_map_get_first_rmv map = let (sts, entry) = bf_map_get_first map in then_rmv_entry map sts entry

  unfoldable pub bf_map_get_next : Arr → ℕ → Status × Option (ℕ × ℕ)
  bf_map_get_next map key = entry_status (jln map key)

  -- JLFA frees the array, and `*map = NULL`.
  unfoldable pub bf_map_destroy : Arr → Arr
  bf_map_destroy map = empty

  unfoldable pub bf_map_count : Arr → ℕ
  bf_map_count map = u32 (jlc map 0 (word64 - 1))
