-- ===== src/Power2/Neighbours.antt =====
-- The blocks in use around an index, as `power2_allocator_release` and `power2_allocator_reserve` of
-- src/power2_allocator/power2_allocator.c find them.
use target_utils.Base.{
  ℕ, suc, ◌+◌, ◌≤◌, ◌<◌, ◌≡◌, refl, arith, minus_one, Bool, false, Option, none, some, u32, add32,
  ◌==◌, ◌⊎◌, inl, inr,
}
use target_utils.Judy.Many.{JudyL, Pointer, pjerr, null, slot, IsFirst, IsLast}
use target_utils.Power2.{
  Allocator, block_at, power2_allocator_get_next_inuse_block, power2_allocator_get_prev_inuse_block,
}
use target_utils.Power2.Calls.{start_of, end_of}
use target_utils.Power2.Valid.{IsStart, IsEnd, IsValid, blocks_of}

module _ (judy : JudyL) (asserts : Bool) (al : Allocator judy) (valid : IsValid judy al) where
  open judy use {Arr, lookup, jln, jlp, jln-IsFirst, jlp-IsLast}

  abbrev used : ℕ → Option ℕ
  used = blocks_of judy al

  -- `s` is 0, or where the block before an index ends.
  abbrev pub IsBehind : ℕ → ℕ → Type 0
  IsBehind i s = (s ≡ 0) ⊎ ((p : ℕ) × (v : ℕ) × (p < i) × (used p ≡ some v) × (p + v ≡ s))

  slot_words : (j v : ℕ) → used j ≡ some v → (u32 j ≡ j) × (u32 v ≡ v)
  slot_words j v there =
      let b = valid.blocks.within j v there in
      let small = valid.small in (omega (arith, b, small), omega (arith, b, small))

  -- The start of the free range in front of an index.
  pub start_of_lem :
      (i : ℕ)
      → let s = start_of judy asserts (power2_allocator_get_prev_inuse_block judy al i) in
        IsStart used s × ((k : ℕ) → s ≤ k → k < i → used k ≡ none) × IsBehind i s
  unfolding power2_allocator_get_prev_inuse_block
  start_of_lem i = by_pointer (jlp al.inuse_list i) (jlp-IsLast al.inuse_list i)
    where
      by_pointer :
          (p : Pointer)
          → IsLast used i p
          → let s = start_of judy asserts (block_at judy p) in
            IsStart used s × ((k : ℕ) → s ≤ k → k < i → used k ≡ none) × IsBehind i s
      by_pointer pjerr h = absurd h
      by_pointer null h = (inl refl, (λ k p q. h k q), inl refl)
      by_pointer (slot j v) (before, there, between) =
          let b = valid.blocks.within j v there in
          let small = valid.small in
          let found : (j == minus_one) ≡ false = ground (arith, b, small) in
          let sum : add32 j v ≡ j + v = omega (arith, b, small) in
          let words = slot_words j v there in
          rw (words.0, words.1, found, sum)
            (
              inr (j, v, there, refl),
              (λ k p q. between k (omega (arith, b)) q),
              inr (j, v, before, there, refl),
            )

  -- The end of the free range behind an index.
  pub end_of_lem :
      (i : ℕ)
      → let e =
          end_of judy asserts al.total_size (power2_allocator_get_next_inuse_block judy al i) in
        IsEnd used al.total_size e
        × (e ≤ al.total_size)
        × ((i < e) ⊎ (e ≡ al.total_size))
        × ((k : ℕ) → i < k → k < e → used k ≡ none)
  unfolding power2_allocator_get_next_inuse_block
  end_of_lem i = by_pointer (jln al.inuse_list i) (jln-IsFirst al.inuse_list i)
    where
      by_pointer :
          (p : Pointer)
          → IsFirst used (suc i) p
          → let e = end_of judy asserts al.total_size (block_at judy p) in
            IsEnd used al.total_size e
            × (e ≤ al.total_size)
            × ((i < e) ⊎ (e ≡ al.total_size))
            × ((k : ℕ) → i < k → k < e → used k ≡ none)
      by_pointer pjerr h = absurd h
      by_pointer null h = (
        inl refl,
        omega arith,
        inr refl,
        λ k p q. h k p (let small = valid.small in omega (arith, small)),
      )
      by_pointer (slot j v) (above, word, there, between) =
          let b = valid.blocks.within j v there in
          let small = valid.small in
          let found : (j == minus_one) ≡ false = ground (arith, b, small) in
          let words = slot_words j v there in
          rw (words.0, found) (inr (v, there), omega (arith, b), inl above, λ k p q. between k p q)
