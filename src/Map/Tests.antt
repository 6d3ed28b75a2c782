-- ===== src/Map/Tests.antt =====
-- Runs of the map on lists of slots, and its theorems at inputs.
use target_utils.Base.{ℕ, ◌≡◌, refl, Option, none, some, List, [], ◌∷◌}
use target_utils.Judy.Slots.{slots, slots-HasMemory}
use target_utils.Judy.Slots.Search.{write, count, up}
use target_utils.Map.{
  bf_map_ok, bf_map_key_exists, bf_map_no_key, bf_map_add, bf_map_rmv, bf_map_get, bf_map_get_rmv,
  bf_map_get_first, bf_map_get_first_rmv, bf_map_get_next, bf_map_count,
}
use target_utils.Map.Contents.{Added, Least, bf_map_add-Added}
use target_utils.Map.Refinement.{
  Call, add, rmv, get, get_rmv, Taken, spec_run, code_run, code_run-spec_run,
  bf_map_get_first_rmv_lem,
}

program : Unit {0}
unfolding write count up bf_map_add bf_map_rmv bf_map_get bf_map_get_rmv bf_map_get_first
    bf_map_get_first_rmv bf_map_get_next bf_map_count spec_run code_run
program = tt

-- Keys 1 and 3.
abbrev two_keys : List (Option ℕ)
two_keys = none ∷ some 7 ∷ none ∷ some 9 ∷ []

calls : List Call
calls = add 3 5 ∷ add 2 0 ∷ add 2 6 ∷ get 2 ∷ get_rmv 1 ∷ rmv 1 ∷ []

calls_run :
    code_run slots two_keys calls
    ≡ (bf_map_key_exists, none)
      ∷ (bf_map_ok, none)
      ∷ (bf_map_ok, none)
      ∷ (bf_map_ok, some 6)
      ∷ (bf_map_ok, some 7)
      ∷ (bf_map_no_key, none)
      ∷ []
unfolding program calls
calls_run = refl

code_run-spec_run_example : code_run slots two_keys calls ≡ spec_run (slots.lookup two_keys) calls
code_run-spec_run_example = code_run-spec_run slots slots-HasMemory two_keys calls

bf_map_add-Added_example :
    let r = bf_map_add slots two_keys 3 8 in
    Added (slots.lookup two_keys) 3 8 (slots.lookup r.0) r.1
bf_map_add-Added_example = bf_map_add-Added slots two_keys 3 8

bf_map_get_first_rmv_example :
    let r = bf_map_get_first_rmv slots two_keys in
    Least (slots.lookup two_keys) 0 (r.1, r.2)
    × Taken (slots.lookup two_keys) (slots.lookup r.0) r.2
bf_map_get_first_rmv_example = bf_map_get_first_rmv_lem slots slots-HasMemory two_keys

-- The entry above a key, and the number of entries.
next_of_one : bf_map_get_next slots two_keys 1 ≡ (bf_map_ok, some (3, 9))
unfolding program up
next_of_one = refl

count_of_two : bf_map_count slots two_keys ≡ 2
unfolding program count
count_of_two = refl
