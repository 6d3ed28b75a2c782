-- ===== src/Id/InUse.antt =====
-- From the indexes of src/id/id.c to its ids: which ids are in use.
use target_utils.Base.{
  ℕ, zero, suc, ◌+◌, ◌-◌, ◌≤◌, ◌<◌, ◌≡◌, refl, Bool, true, false, ◌||◌, arith, word32, minus_one,
  sub32, u32, ltb, ◌==◌, if◌then◌else◌, lt→ltb, ◌⊎◌,
}
use target_utils.Base.Run.{ok, bf_sys_assert_ok}
use target_utils.Judy.One.{Judy1}
use target_utils.Id.{Allocator, id_of, index_of, bf_id_allocator_is_set}
use target_utils.Id.Allocate.{members, in_run}

-- The ids of an allocator; 0 is none unless it is zero-based.
abbrev pub IsId : Bool → ℕ → Type 0
IsId true id = id < word32
IsId false id = (0 < id) × (id < word32)

pub IsId-lt : (zero_based : Bool) (id : ℕ) → IsId zero_based id → id < word32
IsId-lt true id h = h
IsId-lt false id h = h.1

-- The ids whose indexes satisfy `p`.
abbrev pub holds : (ℕ → Bool) → Bool → ℕ → Bool
holds p true id = p id
holds p false zero = false
holds p false (suc index) = p index

pub holds_or :
    (p p' r : ℕ → Bool) (zero_based : Bool) (id : ℕ)
    → ((k : ℕ) → r k ≡ p k || p' k)
    → holds r zero_based id ≡ holds p zero_based id || holds p' zero_based id
holds_or p p' r true id h = h id
holds_or p p' r false zero h = refl
holds_or p p' r false (suc index) h = h index

pub holds_same :
    (p r : ℕ → Bool) (zero_based : Bool) (id : ℕ)
    → ((k : ℕ) → r k ≡ p k)
    → holds r zero_based id ≡ holds p zero_based id
holds_same p r true id h = h id
holds_same p r false zero h = refl
holds_same p r false (suc index) h = h index

pub holds-in_run :
    (q count : ℕ) (zero_based : Bool) (id : ℕ)
    → q + 1 < word32
    → holds (in_run q count) zero_based id ≡ in_run (id_of zero_based q) count id
holds-in_run q count true id h = let e : u32 q ≡ q = omega arith in rw e
holds-in_run q count false zero h = let e : u32 (q + 1) ≡ q + 1 = omega arith in rw e (ground arith)
holds-in_run q count false (suc index) h =
    let e : u32 (q + 1) ≡ q + 1 = omega arith in rw e (ground arith)

pub run_ids :
    (p : ℕ → Bool) (q count bound : ℕ) (zero_based : Bool) (id : ℕ)
    → q + count ≤ bound
    → bound < 0x8000_0000
    → ((k : ℕ) → q ≤ k → k < q + count → p k ≡ false)
    → holds (in_run q count) zero_based id ≡ true
    → IsId zero_based id × (holds p zero_based id ≡ false)
run_ids p q count bound true id h small clear e =
    let lo : q ≤ id = ground arith in
    let hi : id < q + count = ground arith in (omega arith, clear id lo hi)
run_ids p q count bound false zero h small clear e = cc
run_ids p q count bound false (suc index) h small clear e =
    let lo : q ≤ index = ground arith in
    let hi : index < q + count = ground arith in (omega arith, clear index lo hi)

-- The index of an id, and the ids with another value at that index only.
abbrev pub index_for : Bool → ℕ → ℕ
index_for true id = id
index_for false id = id - 1

pub index_of_lem :
    (asserts zero_based : Bool) (id : ℕ)
    → IsId zero_based id
    → index_of asserts zero_based id ≡ ok (index_for zero_based id)
index_of_lem asserts true id h = refl
index_of_lem asserts false id h =
    let e : sub32 id 1 ≡ id - 1 = omega arith in
    rw (lt→ltb 0 id h.0, bf_sys_assert_ok asserts true refl, e)

pub holds-update :
    (p r : ℕ → Bool) (b zero_based : Bool) (id j : ℕ)
    → IsId zero_based id
    → ((k : ℕ) → r k ≡ (if index_for zero_based id == k then b else p k))
    → holds r zero_based j ≡ (if id == j then b else holds p zero_based j)
holds-update p r b true id j h e = e j
holds-update p r b false id zero h e = ground arith
holds-update p r b false id (suc j) h e = ground (arith, e j)

-- The listing of ids from a bound: -1 with none in use from there, or the least one in use.
abbrev pub Lists : (ℕ → Bool) → ℕ → ℕ → Type 0
Lists in_use from r =
    ((r ≡ minus_one) × ((id : ℕ) → from ≤ id → id < word32 → in_use id ≡ false))
    ⊎ ((from ≤ r) × (in_use r ≡ true) × ((id : ℕ) → from ≤ id → id < r → in_use id ≡ false))

module _ (judy : Judy1) where
  open judy use {Arr, test, j1s, j1u, j1f, j1n, j1f-IsFirst, j1n-IsFirst, test-empty}

  abbrev pub is_set : Allocator judy → ℕ → Bool
  is_set = bf_id_allocator_is_set judy

  pub is_set-holds :
      (al : Allocator judy) (id : ℕ)
      → id < word32
      → is_set al id ≡ holds (members judy al) al.zero_based id
  unfolding bf_id_allocator_is_set
  is_set-holds al id h = by_base al.zero_based id h
    where
      by_base :
          (zero_based : Bool) (id : ℕ)
          → id < word32
          → (if zero_based
              then test al.array id
              else if ltb id 1
              then false
              else test al.array (sub32 id 1))
            ≡ holds (members judy al) zero_based id
      by_base true id h = refl
      by_base false zero h = refl
      by_base false (suc index) h =
          let e : sub32 (suc index) 1 ≡ index = omega arith in rw e (ground arith)
