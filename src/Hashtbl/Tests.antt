-- ===== src/Hashtbl/Tests.antt =====
-- Runs of src/hashtbl/hashtbl.c over a list of elements, with a hash that adds.
use target_utils.Base.{
  ℕ, ◌≡◌, refl, arith, ◌%◌, ◌+◌, Bool, true, false, Option, none, some, [], ◌∷◌, ◌==◌,
  if◌then◌else◌,
}
use target_utils.Base.Run.{ok}
use target_utils.Hashtbl.{
  bf_hashtbl_ok, bf_hashtbl_err, bf_hashtbl_invalid_arg, Hashtable, bf_hashtbl_init,
  bf_hashtbl_search, bf_hashtbl_insert, bf_hashtbl_foreach_fn, bf_hashtbl_delete, free_each,
}
use target_utils.Hashtbl.Listed.{listed}
use target_utils.Hashtbl.RoundTrip.{IsKept, Lacks, bf_hashtbl_get_remove-bf_hashtbl_insert}

abbrev hash_sum : ℕ → ℕ → ℕ → ℕ
hash_sum key size seed = key + size + seed

-- A datum has its key in its last digit.
abbrev last_digit : ℕ → ℕ → ℕ
last_digit key d = if key == d % 10 then 0 else 1

abbrev empty_table : Hashtable listed
empty_table = record {
  cmp_fn = last_digit;
  has_free_fn = true;
  key_sz = 4;
  data_sz = 8;
  seed = 7;
  phtbl = [];
  nodes = λ b. none;
}

abbrev one_table : Hashtable listed
one_table = record empty_table {
  phtbl = (100, 14) ∷ [];
  nodes = λ b. if b == 100 then some 53 else none;
}

init_run :
    bf_hashtbl_init listed true (some last_digit) true 4 8 7 (λ b. none)
    ≡ (some empty_table, bf_hashtbl_ok)
unfolding bf_hashtbl_init
init_run = refl

init_no_compare :
    bf_hashtbl_init listed true none true 4 8 7 (λ b. none) ≡ (none, bf_hashtbl_invalid_arg)
unfolding bf_hashtbl_init
init_no_compare = refl

search_hit : bf_hashtbl_search listed hash_sum (some one_table) (some 3) ≡ ok (some 53)
unfolding bf_hashtbl_search
search_hit = refl

search_miss : bf_hashtbl_search listed hash_sum (some one_table) (some 4) ≡ ok none
unfolding bf_hashtbl_search
search_miss = refl

insert_no_memory :
    bf_hashtbl_insert listed hash_sum (some one_table) (some 64) (some 4) none
    ≡ (some one_table, bf_hashtbl_err)
unfolding bf_hashtbl_insert
insert_no_memory = refl

delete_run :
    bf_hashtbl_delete listed (some (record one_table { nodes = λ b. some 53 }))
    ≡ ok (some (λ b. if 100 == b then none else some 53), 53 ∷ [])
unfolding bf_hashtbl_delete free_each
delete_run = refl

foreach_run : bf_hashtbl_foreach_fn listed (some one_table) true ≡ 100 ∷ []
unfolding bf_hashtbl_foreach_fn
foreach_run = refl

one_table-Lacks : Lacks listed hash_sum one_table 4
one_table-Lacks b = by_test (100 == b)
  where
    by_test :
        (c : Bool)
        → ◌≡◌ {A = Option ℕ} (if c then some 14 else none) (some 15)
        → (elim (one_table.nodes b) [ none ↦ false | some d ↦ last_digit 4 d == 0 ]) ≡ false
    by_test true e = absurd (let f : ◌≡◌ {A = ℕ} 14 15 = cc in omega arith)
    by_test false e = absurd cc

bf_hashtbl_get_remove-bf_hashtbl_insert_example :
    IsKept listed hash_sum one_table 64 4
      (bf_hashtbl_insert listed hash_sum (some one_table) (some 64) (some 4) (some 101))
bf_hashtbl_get_remove-bf_hashtbl_insert_example =
    bf_hashtbl_get_remove-bf_hashtbl_insert listed hash_sum one_table 64 4 101 one_table-Lacks
      (refl, refl) refl
