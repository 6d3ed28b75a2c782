-- ===== src/Power2/Multiple.antt =====
-- The allocation of several blocks in a row, and the destruction, of
-- src/power2_allocator/power2_allocator.c. Indexes that the code keeps in a word stay below 2^64.
use target_utils.Base.{
  ℕ, zero, suc, ◌+◌, ◌%◌, ◌^◌, Bool, true, false, ◌||◌, Option, none, some, List, [], ◌∷◌,
  minus_one, u32, add32, sub32, add64, mul32, ltb, leb, ◌==◌, if◌then◌else◌,
}
use target_utils.Base.Run.{Run, ok, abort, out_of_fuel, ◌>>=◌, ◌>>◌, bf_sys_assert}
use target_utils.BitUtils.{log2_uint32_ceil}
use target_utils.Judy.Many.{JudyL, Pointer, pjerr, null, slot}
use target_utils.Power2.{
  Allocator, set_list, is_nonzero, power2_allocator_insert_one_free, power2_allocator_mark_inuse,
}
use target_utils.Power2.Calls.{checked, power2_allocator_alloc}

module _ (judy : JudyL) (asserts : Bool) where
  open judy use {Arr, jld, jlg, jlf}

  -- `for (i = 0; Pfree && (i < count); i++)`, with the rounds left: the indexes and free sizes, or
  -- nothing where fewer than `count` chunks in a row are large enough.
  unfoldable pub chunks_in_row : ℕ → ℕ → ℕ → Arr → ℕ → Pointer → Run (Option (List (ℕ × ℕ)))
  chunks_in_row zero log2 size a index p = ok (some [])
  chunks_in_row (suc n) log2 size a index pjerr = abort
  chunks_in_row (suc n) log2 size a index null = ok none
  chunks_in_row (suc n) log2 size a index (slot j v) = elim (ltb v size) [
    | true ↦ ok none
    | false ↦ do
      let index' = add64 index (2 ^ log2)
      rest ← chunks_in_row n log2 size a index' (jlg a index')
      elim rest [ none ↦ ok none | some chunks ↦ ok (some ((u32 index, u32 v) ∷ chunks)) ]
  ]

  -- `while (true)`.
  unfoldable pub find_row : ℕ → ℕ → ℕ → ℕ → ℕ → Arr → ℕ → Run (Option (List (ℕ × ℕ)))
  unfolding chunks_in_row
  find_row zero log2 size count align a index = out_of_fuel
  find_row (suc fuel) log2 size count align a index =
      let next_index = u32 (index + align) in
      let again = find_row fuel log2 size count align a next_index in
      elim (jlf a index) [
        | pjerr ↦ abort
        | null ↦ ok none
        | slot j v ↦ elim (j % align == 0) [
          | false ↦ again
          | true ↦ do
            row ← chunks_in_row count log2 size a j (slot j v)
            elim row [ none ↦ again | some chunks ↦ ok (some chunks) ]
        ]
      ]

  -- The first loop over the chunks found: what a block leaves of each is freed again.
  unfoldable pub take_row : ℕ → ℕ → Allocator judy → List (ℕ × ℕ) → Run (Allocator judy)
  take_row log2 size al [] = ok al
  take_row log2 size al ((free_index, free_size) ∷ chunks) = do
    let (a, rc) = jld (al.free_lists log2) free_index
    bf_sys_assert asserts (is_nonzero rc)
    (al', rc') ←
        power2_allocator_insert_one_free judy asserts (set_list judy al log2 a)
          (add32 free_index size) (sub32 free_size size)
    bf_sys_assert asserts (rc' == 0)
    take_row log2 size al' chunks

  -- The second one, from the round `i` on.
  unfoldable pub mark_row : ℕ → ℕ → ℕ → ℕ → Allocator judy → List (ℕ × ℕ) → Run (Allocator judy × ℕ)
  mark_row log2 size first i al [] = ok (al, first)
  mark_row log2 size first i al ((free_index, free_size) ∷ chunks) = do
    bf_sys_assert asserts (free_index == add32 first (mul32 i (2 ^ log2)))
    (al', rc) ← power2_allocator_mark_inuse judy asserts al free_index size
    checked judy asserts al' rc (mark_row log2 size first (i + 1) al' chunks)

  -- What follows the search.
  unfoldable pub use_row : ℕ → ℕ → Allocator judy → Option (List (ℕ × ℕ)) → Run (Allocator judy × ℕ)
  unfolding take_row mark_row
  use_row log2 size al none = ok (al, minus_one)
  use_row log2 size al (some []) = abort
  use_row log2 size al (some ((first, free_size) ∷ chunks)) = do
    al' ← take_row log2 size al ((first, free_size) ∷ chunks)
    mark_row log2 size first 0 al' ((first, free_size) ∷ chunks)

  unfoldable pub power2_allocator_alloc_int_v2 :
      Allocator judy → ℕ → ℕ → ℕ → ℕ → Run (Allocator judy × ℕ)
  unfolding find_row use_row
  power2_allocator_alloc_int_v2 al log2 size count align =
      if (if log2 == sub32 al.no_free_lists 1 then false else true) || count == 0
      then ok (al, minus_one)
      else (do
        bf_sys_assert asserts (leb size (2 ^ log2))
        row ← find_row (suc (suc al.total_size)) log2 size count align (al.free_lists log2) 0
        use_row log2 size al row)

  unfoldable pub power2_allocator_alloc_multiple : Allocator judy → ℕ → ℕ → Run (Allocator judy × ℕ)
  unfolding power2_allocator_alloc_int_v2
  power2_allocator_alloc_multiple al size count =
      let log2 = log2_uint32_ceil size in
      let total_size = mul32 (2 ^ log2) count in
      let align = 2 ^ log2_uint32_ceil total_size in
      if count == 1
      then power2_allocator_alloc judy asserts al size
      else if ltb al.total_size total_size
      then ok (al, minus_one)
      else if log2 == sub32 al.no_free_lists 1
      then power2_allocator_alloc_int_v2 al log2 size count align
      else ok (al, minus_one)

module _ (judy : JudyL) where
  open judy use {empty}

  -- `for (i = 0; i < allocator->no_free_lists; i++)`, with the rounds left.
  unfoldable pub free_all : ℕ → ℕ → Allocator judy → Allocator judy
  free_all zero i al = al
  free_all (suc n) i al = free_all n (i + 1) (set_list judy al i empty)

  -- The arrays as JLFA leaves them; the memory of the allocator is then given back. NULL is none.
  unfoldable pub power2_allocator_destroy : Option (Allocator judy) → Option (Allocator judy)
  unfolding free_all
  power2_allocator_destroy none = none
  power2_allocator_destroy (some al) =
      some (record (free_all al.no_free_lists 0 al) { inuse_list = empty })
