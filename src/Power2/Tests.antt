-- ===== src/Power2/Tests.antt =====
-- Runs of the power-of-two allocator on lists of slots, and its theorems at inputs.
use target_utils.Base.{
  ℕ, zero, suc, ◌≤◌, ◌<◌, ◌⊎◌, ◌-◌, ap, ◌∷◌, ◌≡◌, refl, sym, ◌∙◌, arith, true, ◌&&◌, Bool-cases,
  ==_iff, inl, inr, Option, none, some, [], ◌==◌, if◌then◌else◌,
}
use target_utils.Base.Run.{Run, ok, abort, ◌>>=◌}
use target_utils.Judy.Slots.{slots, slots-HasMemory}
use target_utils.Judy.Slots.Search.{write, up, down, content-write}
use target_utils.BitUtils.{bit_length, trailing_zeros, log2_uint32_ceil, ctz, is_uint32_power2}
use target_utils.Power2.{
  Allocator, free_log2_of, insert_loop, remove_loop, find_fit, power2_allocator_insert_one_free,
  power2_allocator_remove_free_index, power2_allocator_remove_one_free, power2_allocator_mark_inuse,
  power2_allocator_mark_free, power2_allocator_get_index_size,
  power2_allocator_get_next_inuse_block, power2_allocator_get_prev_inuse_block,
}
use target_utils.Power2.Calls.{
  create_loop, take_chunk, split_at, split_chunk, release_block, reserve_block, sum_inuse,
  power2_allocator_create, power2_allocator_alloc, power2_allocator_release,
  power2_allocator_reserve, power2_allocator_usage, power2_allocator_alloc_count_by_size,
}
use target_utils.Power2.Bulk.{
  copy_loop, copy_lists, power2_allocator_make_copy, release_one, release_rounds,
  power2_allocator_release_multiple,
}
use target_utils.Power2.Pieces.{pieces, pieces_of}
use target_utils.Power2.Insert.{free_at, Frees}
use target_utils.Power2.Pieces.{some_ne_none}
use target_utils.Power2.Valid.{IsGap, IsValid, blocks_of}
use target_utils.Power2.Release.{Released, power2_allocator_release-Released}
use target_utils.Power2.Allocate.{Allocated, power2_allocator_alloc-Allocated}
use target_utils.Power2.Reserve.{Reserved, power2_allocator_reserve-Reserved}
use target_utils.Power2.RoundTrip.{
  free_and_take, power2_allocator_remove_free_index-power2_allocator_insert_one_free,
}

program : Unit {0}
unfolding bit_length trailing_zeros log2_uint32_ceil ctz is_uint32_power2 write up down free_log2_of
    insert_loop remove_loop find_fit power2_allocator_insert_one_free
    power2_allocator_remove_free_index power2_allocator_remove_one_free power2_allocator_mark_inuse
    power2_allocator_mark_free power2_allocator_get_index_size power2_allocator_get_next_inuse_block
    power2_allocator_get_prev_inuse_block create_loop take_chunk split_at split_chunk release_block
    reserve_block sum_inuse power2_allocator_create power2_allocator_alloc power2_allocator_release
    power2_allocator_reserve power2_allocator_usage power2_allocator_alloc_count_by_size pieces
program = tt

abbrev with_new : {A : Type 0} → ℕ → ℕ → (Allocator slots → Run A) → Run A
with_new size count f = power2_allocator_create slots true true true size count >>= λ o. elim o [
  | none ↦ abort
  | some al ↦ f al
]

bulk : Unit {0}
unfolding copy_loop copy_lists power2_allocator_make_copy release_one release_rounds
    power2_allocator_release_multiple
bulk = tt

-- Two allocations of three and two from two blocks of four.
allocations :
    with_new {A = ℕ × ℕ × ℕ} 4 2 (λ al. do
      (al₁, i) ← power2_allocator_alloc slots true al 3
      (al₂, j) ← power2_allocator_alloc slots true al₁ 2
      n ← power2_allocator_usage slots al₂
      ok (i, j, n))
    ≡ ok (0, 6, 5)
unfolding program
allocations = refl

-- A reserved range is refused a second time, and can be released.
reservations :
    with_new {A = ℕ × ℕ × ℕ × Option ℕ × Option ℕ} 4 2 (λ al. do
      (al₁, r) ← power2_allocator_reserve slots true al 1 5
      (al₂, s) ← power2_allocator_reserve slots true al₁ 5 2
      (al₃, t) ← power2_allocator_release slots true al₂ 1
      ok (r, s, t, free_at slots al₃ 2 0, free_at slots al₃ 2 4))
    ≡ ok (0, 1, 0, some 4, some 4)
unfolding program
reservations = refl

-- The indexes 2 to 4 are free, in two chunks.
abbrev three_free : Allocator slots
three_free = record {
  max_size = 4;
  total_size = 8;
  no_free_lists = 3;
  free_lists =
      λ l. if 1 == l then write [] 2 (some 2) else if 0 == l then write [] 4 (some 1) else [];
  inuse_list = [];
}

abbrev none_free : Allocator slots
none_free = record three_free { free_lists = λ l. [] }

-- The cut of these indexes.
cut :
    (l k : ℕ)
    → pieces_of 3 2 3 l k
      ≡ (if 1 == l && 2 == k then some 2 else if 0 == l && 4 == k then some 1 else none)
unfolding program
cut l k = refl

three_free_content :
    (l k : ℕ)
    → free_at slots three_free l k
      ≡ (if 1 == l && 2 == k then some 2 else if 0 == l && 4 == k then some 1 else none)
three_free_content l k = elim (Bool-cases (1 == l)) [
  | inl e ↦ rw (e, ← (==_iff 1 l).0 e) (content-write [] 2 (some 2) k)
  | inr e ↦ rw e (elim (Bool-cases (0 == l)) [
    | inl f ↦ rw f (content-write [] 4 (some 1) k)
    | inr f ↦ rw f refl
  ])
]

power2_allocator_remove_free_index-power2_allocator_insert_one_free_example :
    Frees slots none_free (λ l k. none) (free_and_take slots true none_free 2 3)
power2_allocator_remove_free_index-power2_allocator_insert_one_free_example =
    power2_allocator_remove_free_index-power2_allocator_insert_one_free slots true slots-HasMemory
      none_free 2 3 (omega arith) (omega arith) (omega arith) (λ l k p q. refl)

-- All four indexes are in use, in two blocks.
abbrev full : Allocator slots
full = record {
  max_size = 2;
  total_size = 4;
  no_free_lists = 2;
  free_lists = λ l. [];
  inuse_list = some 2 ∷ none ∷ some 2 ∷ [];
}

full_blocks : (k v : ℕ) → blocks_of slots full k ≡ some v → ((k ≡ 0) ⊎ (k ≡ 2)) × (v ≡ 2)
full_blocks zero v h = (inl refl, cc)
full_blocks (suc zero) v h = absurd (some_ne_none (sym h))
full_blocks (suc (suc zero)) v h = (inr refl, cc)
full_blocks (suc (suc (suc k))) v h = absurd (some_ne_none (sym h))

full_gap : (s e k : ℕ) → IsGap (blocks_of slots full) 4 s e → s ≤ k → k < e → ⊥
full_gap s e k g p q = elim g.starts [
  | inl zero_start ↦ some_ne_none (g.unused 0 (omega arith) (omega arith))
  | inr (b, v, here, ends) ↦
      let t = full_blocks b v here in
      elim t.0 [
        | inl first ↦ some_ne_none (g.unused 2 (omega (arith, t.1)) (omega (arith, t.1)))
        | inr second ↦ elim g.ends [
          | inl border ↦ omega (arith, t.1)
          | inr (w, there) ↦ let u = full_blocks e w there in ground (arith, t.1, u)
        ]
      ]
]

full-IsValid : IsValid slots full
unfolding program
full-IsValid = record {
  sized = refl;
  largest = omega arith;
  few = omega arith;
  small = omega arith;
  wide = omega arith;
  blocks = record {
    within = λ i v h. let t = full_blocks i v h in ground (arith, t);
    apart = λ i v j w h h' p.
        let t = full_blocks i v h in let u = full_blocks j w h' in ground (arith, t, u);
  };
  gaps = λ s e g l k p q. absurd (full_gap s e k g p q);
  busy = λ i v h l k p q. refl;
  beyond = λ l k p. refl;
}

power2_allocator_release-Released_example :
    Released slots true full 2 (blocks_of slots full 2) (power2_allocator_release slots true full 2)
power2_allocator_release-Released_example =
    power2_allocator_release-Released slots true slots-HasMemory full 2 full-IsValid

-- Four indexes, none of them in use.
abbrev fresh : Allocator slots
fresh = record {
  max_size = 4;
  total_size = 4;
  no_free_lists = 3;
  free_lists = λ l. if 2 == l then write [] 0 (some 4) else [];
  inuse_list = [];
}

fresh_cut : (l k : ℕ) → pieces_of 3 0 4 l k ≡ (if 2 == l && 0 == k then some 4 else none)
unfolding program
fresh_cut l k = refl

fresh_content : (l k : ℕ) → free_at slots fresh l k ≡ (if 2 == l && 0 == k then some 4 else none)
fresh_content l k = elim (Bool-cases (2 == l)) [
  | inl here ↦ rw here (content-write [] 0 (some 4) k)
  | inr other ↦ rw other refl
]

fresh_gap : (s e : ℕ) → IsGap (blocks_of slots fresh) 4 s e → (s ≡ 0) × (e ≡ 4)
fresh_gap s e g = elim g.starts [
  | inr (b, v, here, ends) ↦ absurd (some_ne_none (sym here))
  | inl start ↦ elim g.ends [
    | inr (v, here) ↦ absurd (some_ne_none (sym here))
    | inl border ↦ (start, border)
  ]
]

fresh-IsValid : IsValid slots fresh
unfolding program
fresh-IsValid = record {
  sized = refl;
  largest = omega arith;
  few = omega arith;
  small = omega arith;
  wide = omega arith;
  blocks = record {
    within = λ i v h. absurd (some_ne_none (sym h));
    apart = λ i v j w h h' p. absurd (some_ne_none (sym h));
  };
  gaps = λ s e g l k p q.
      let (start, border) = fresh_gap s e g in
      fresh_content l k
      ∙ sym (fresh_cut l k)
      ∙ ap (λ n. pieces_of 3 n (4 - n) l k) (sym start)
      ∙ ap (λ n. pieces_of 3 s (n - s) l k) (sym border);
  busy = λ i v h l k p q. absurd (some_ne_none (sym h));
  beyond = λ l k p. fresh_content l k ∙ ground arith;
}

power2_allocator_reserve-Reserved_example :
    Reserved slots true fresh 1 2 (power2_allocator_reserve slots true fresh 1 2)
power2_allocator_reserve-Reserved_example =
    power2_allocator_reserve-Reserved slots true slots-HasMemory fresh 1 2 fresh-IsValid
      (omega arith) (omega arith)

power2_allocator_alloc-Allocated_example :
    Allocated slots true fresh 3 (power2_allocator_alloc slots true fresh 3)
power2_allocator_alloc-Allocated_example =
    power2_allocator_alloc-Allocated slots true slots-HasMemory fresh 3 fresh-IsValid (omega arith)

-- The end of the range wraps around, and the range is not refused.
abbrev overflowing : Run (ℕ × Option ℕ)
overflowing = do
  (al, rc) ← power2_allocator_reserve slots true fresh 1 0xffff_ffff
  ok (rc, blocks_of slots al 1)

reserve_overflow : overflowing ≡ ok (0, some 0xffff_ffff)
unfolding program
reserve_overflow = refl

-- Two whole blocks come free at once.
abbrev released : Run (ℕ × Option ℕ × Option ℕ)
released = do
  (al, rc) ← power2_allocator_release_multiple slots true full 0 2
  ok (rc, free_at slots al 1 0, free_at slots al 1 2)

released_both : released ≡ ok (0, some 2, some 2)
unfolding program bulk
released_both = refl

-- A copy has the blocks and the free lists.
abbrev copied : Run (Option ℕ × Option ℕ)
copied = power2_allocator_make_copy slots true true true (some full) >>= λ o. elim o [
  | none ↦ abort
  | some al ↦ ok (blocks_of slots al 2, free_at slots al 1 0)
]

copied_blocks : copied ≡ ok (some 2, none)
unfolding program bulk
copied_blocks = refl
