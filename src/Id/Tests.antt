-- ===== src/Id/Tests.antt =====
-- Runs of the id allocator on lists of bits, and its theorems at inputs.
use target_utils.Base.{
  ℕ, zero, suc, ◌≤◌, ◌<◌, inl, ◌≡◌, refl, Bool, true, false, some, [], ◌∷◌, ◌==◌, if◌then◌else◌,
  arith, word32, minus_one,
}
use target_utils.Base.Run.{Run, ok, out_of_fuel, Returns, ◌>>=◌}
use target_utils.Judy.Bits.{bits, bits-HasMemory}
use target_utils.Judy.Bits.Search.{member_beyond, write, up, down}
use target_utils.Id.{
  Allocator, search_loop, set_run, bf_id_allocator_new, bf_id_allocator_allocate_contiguous,
  bf_id_allocator_allocate, bf_id_allocator_release, bf_id_allocator_set, bf_id_allocator_is_set,
  bf_id_allocator_get_first, bf_id_allocator_get_next,
}
use target_utils.Id.Room.{IsSettled}
use target_utils.Id.Allocate.{
  IsValid, Allocated, TookFirst, in_run, bf_id_allocator_allocate_contiguous-Allocated,
  bf_id_allocator_allocate_contiguous-TookFirst,
}
use target_utils.Id.Single.{TookLeast, bf_id_allocator_allocate-TookLeast}
use target_utils.Id.InUse.{Lists, is_set}
use target_utils.Id.Ids.{TookIds, is_set-allocate, allocate-new}
use target_utils.Id.Release.{bf_id_allocator_release-Returns, bf_id_allocator_set-Returns}
use target_utils.Id.Listing.{
  bf_id_allocator_get_first-Lists, bf_id_allocator_get_next-Lists,
  bf_id_allocator_get_first-zero_based,
}

program : Unit {0}
unfolding write up down search_loop set_run bf_id_allocator_new bf_id_allocator_allocate_contiguous
    bf_id_allocator_allocate bf_id_allocator_release bf_id_allocator_set bf_id_allocator_is_set
    bf_id_allocator_get_first bf_id_allocator_get_next
program = tt

-- Of eight ids, those of the indexes 0, 1 and 4 are in use.
abbrev some_used : Bool → Allocator bits
some_used zero_based = record {
  array = true ∷ true ∷ false ∷ false ∷ true ∷ [];
  size = 8;
  zero_based = zero_based;
}

some_used-IsValid : (zero_based : Bool) → IsValid bits (some_used zero_based)
some_used-IsValid zero_based = record {
  small = omega arith;
  bounded = λ k h. member_beyond (some_used zero_based).array k (omega arith);
}

abbrev answer : Run (Allocator bits × ℕ) → Run ℕ
answer run = do (al, r) ← run; ok r

two_ids : answer (bf_id_allocator_allocate_contiguous bits (some_used true) 2) ≡ ok 2
unfolding program
two_ids = refl

four_ids : answer (bf_id_allocator_allocate_contiguous bits (some_used true) 4) ≡ ok minus_one
unfolding program
four_ids = refl

-- The indexes 5 to 7 are free, and the call gives up: J1N left 6 in `Index`.
three_ids : answer (bf_id_allocator_allocate_contiguous bits (some_used false) 3) ≡ ok minus_one
unfolding program
three_ids = refl

-- Of four ids, all but the first are in use: two indexes beyond the size come into use.
abbrev last_used : Allocator bits
last_used = record { array = false ∷ true ∷ true ∷ true ∷ []; size = 4; zero_based = true }

abbrev beyond : Run (ℕ × Bool × Bool)
beyond = do
  (al, r) ← bf_id_allocator_allocate_contiguous bits last_used 2
  ok (r, bits.test al.array 4, bits.test al.array 5)

two_beyond : beyond ≡ ok (4, true, true)
unfolding program
two_beyond = refl

-- Of four ids, the first two are in use: a call for three goes round for ever.
abbrev first_used : Allocator bits
first_used = record { array = true ∷ true ∷ []; size = 4; zero_based = true }

three_endless : (fuel : ℕ) → search_loop bits first_used.array 4 3 fuel 4 4 ≡ out_of_fuel
unfolding program
three_endless zero = refl
three_endless (suc fuel) = three_endless fuel

three_out_of_fuel : bf_id_allocator_allocate_contiguous bits first_used 3 ≡ out_of_fuel
unfolding program
three_out_of_fuel = refl

-- The free indexes 2 and 3 are settled: 4 is in use.
some_used-IsSettled : IsSettled (bits.test (some_used false).array) 8 2 2
some_used-IsSettled = ((omega arith, two_clear), inl (4, omega arith, refl))
  where
    two_clear : (k : ℕ) → 2 ≤ k → k < 4 → bits.test (some_used false).array k ≡ false
    two_clear zero p q = absurd (omega arith)
    two_clear (suc zero) p q = absurd (omega arith)
    two_clear (suc (suc zero)) p q = refl
    two_clear (suc (suc (suc zero))) p q = refl
    two_clear (suc (suc (suc (suc k)))) p q = absurd (omega arith)

bf_id_allocator_allocate_contiguous-Allocated_example :
    Allocated bits
      (some_used false)
      3
      (bf_id_allocator_allocate_contiguous bits (some_used false) 3)
bf_id_allocator_allocate_contiguous-Allocated_example =
    bf_id_allocator_allocate_contiguous-Allocated bits bits-HasMemory (some_used false) 3
      (some_used-IsValid false) (omega arith) (omega arith)

bf_id_allocator_allocate_contiguous-TookFirst_example :
    Returns
      (bf_id_allocator_allocate_contiguous bits (some_used false) 2)
      (TookFirst bits (some_used false) 2)
bf_id_allocator_allocate_contiguous-TookFirst_example =
    bf_id_allocator_allocate_contiguous-TookFirst bits bits-HasMemory (some_used false) 2
      (some_used-IsValid false) (omega arith) (omega arith) 2 some_used-IsSettled

bf_id_allocator_allocate-TookLeast_example :
    Returns (bf_id_allocator_allocate bits (some_used false)) (TookLeast bits (some_used false))
bf_id_allocator_allocate-TookLeast_example =
    bf_id_allocator_allocate-TookLeast bits bits-HasMemory (some_used false)
      (some_used-IsValid false)

is_set-allocate_example :
    Returns
      (bf_id_allocator_allocate_contiguous bits (some_used false) 2)
      (TookIds bits (some_used false) 2)
is_set-allocate_example =
    is_set-allocate bits bits-HasMemory (some_used false) 2 2 (some_used-IsValid false)
      (omega arith) (omega arith) some_used-IsSettled

allocate-new_example :
    Returns (bf_id_allocator_allocate_contiguous bits (bf_id_allocator_new bits 8 true) 8) (λ r.
      (r.0.size ≡ 8)
      × (r.0.zero_based ≡ true)
      × (r.1 ≡ (if true then 0 else 1))
      × ((id : ℕ) → id < word32 → is_set bits r.0 id ≡ in_run r.1 8 id))
allocate-new_example =
    allocate-new bits bits-HasMemory 8 8 true (omega arith) (omega arith) (omega arith)
      (omega arith)

bf_id_allocator_release-Returns_example :
    Returns (bf_id_allocator_release bits true (some_used false) 5) (λ al'.
      ((j : ℕ)
        → j < word32
        → is_set bits al' j ≡ (if 5 == j then false else is_set bits (some_used false) j))
      × (IsValid bits (some_used false) → IsValid bits al'))
bf_id_allocator_release-Returns_example =
    bf_id_allocator_release-Returns bits bits-HasMemory true (some_used false) 5 (omega arith)

bf_id_allocator_set-Returns_example :
    Returns (bf_id_allocator_set bits true (some_used false) 8) (λ al'.
      (j : ℕ)
      → j < word32
      → is_set bits al' j ≡ (if 8 == j then true else is_set bits (some_used false) j))
bf_id_allocator_set-Returns_example =
    bf_id_allocator_set-Returns bits bits-HasMemory true (some_used false) 8 (omega arith)

bf_id_allocator_get_first-Lists_example :
    Lists
      (is_set bits (some_used false))
      1
      (bf_id_allocator_get_first bits (some (some_used false)))
bf_id_allocator_get_first-Lists_example =
    bf_id_allocator_get_first-Lists bits (some_used false) (some_used-IsValid false) refl

bf_id_allocator_get_next-Lists_example :
    Lists
      (is_set bits (some_used false))
      (suc 2)
      (bf_id_allocator_get_next bits (some (some_used false)) 2)
bf_id_allocator_get_next-Lists_example =
    bf_id_allocator_get_next-Lists bits (some_used false) (some_used-IsValid false) 2 (omega arith)

-- Only the index 3 is in use.
abbrev third_used : Allocator bits
third_used = record { array = false ∷ false ∷ false ∷ true ∷ []; size = 8; zero_based = true }

third_used-IsValid : IsValid bits third_used
third_used-IsValid = record {
  small = omega arith;
  bounded = λ k h. member_beyond third_used.array k (omega arith);
}

bf_id_allocator_get_first-zero_based_example : bf_id_allocator_get_first bits (some third_used) ≡ 0
bf_id_allocator_get_first-zero_based_example =
    bf_id_allocator_get_first-zero_based bits third_used third_used-IsValid 3 refl (omega arith)
      (unfold program in refl)
