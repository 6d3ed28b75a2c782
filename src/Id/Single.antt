-- ===== src/Id/Single.antt =====
-- `bf_id_allocator_allocate` of src/id/id.c, the call for one id.
use target_utils.Base.{
  ℕ, ◌<◌, ◌≡◌, refl, ◌∙◌, Bool, true, false, none, some, arith, minus_one, leb, Bool-cases,
  Option-cases, leb→lt, leb→le, inl, inr, ◌⊎◌,
}
use target_utils.Base.Run.{Returns}
use target_utils.Judy.One.{Judy1, IsFirst, HasMemory}
use target_utils.Id.{
  Allocator, id_of, bf_id_allocator_allocate, bf_id_allocator_allocate_contiguous,
}
use target_utils.Id.Allocate.{
  members, IsValid, SameShape, IsKept, IsMarked, test-j1s, wrap_around_lem,
}

module _ (judy : Judy1) where
  open judy use {j1s, j1fe, j1fe-IsFirst}

  -- The least clear index was taken, or all are set and nothing changed.
  abbrev pub TookLeast : Allocator judy → Allocator judy × ℕ → Type 0
  TookLeast al r =
      SameShape judy al r
      × IsValid judy r.0
      × ((IsKept judy al r × ((k : ℕ) → k < al.size → members judy al k ≡ true))
          ⊎ ((q : ℕ) × (q < al.size)
              × (members judy al q ≡ false)
              × ((k : ℕ) → k < q → members judy al k ≡ true)
              × IsMarked judy al 1 q r))

  true_of_ne : {b : Bool} → ¬ (b ≡ false) → b ≡ true
  true_of_ne {b} h = ground arith

  module _ (memory : HasMemory judy) (al : Allocator judy) (valid : IsValid judy al) where
    all_set : ((k : ℕ) → k < al.size → ¬ (members judy al k ≡ false)) → TookLeast al (al, minus_one)
    all_set full = ((refl, refl), valid, inl ((refl, λ k. refl), λ k p. true_of_ne (full k p)))

    least_taken :
        (q : ℕ)
        → q < al.size
        → IsFirst (members judy al) false 0 (some q)
        → TookLeast al (record al { array = (j1s al.array q).0 }, id_of al.zero_based q)
    least_taken q below first = (
      (refl, refl),
      record {
        small = valid.small;
        bounded = λ k p. rw (test-j1s judy memory al.array q k) (ground (arith, valid.bounded k p));
      },
      inr (
        q,
        below,
        first.2,
        (λ k p. true_of_ne (first.3 k (omega arith) p)),
        (refl, λ k. ground (arith, test-j1s judy memory al.array q k)),
      ),
    )

    is_single : bf_id_allocator_allocate judy al ≡ bf_id_allocator_allocate_contiguous judy al 1
    unfolding bf_id_allocator_allocate
    is_single = refl

    -- On a valid allocator, as long as memory does not run out, `bf_id_allocator_allocate` ends and
    -- leaves a valid allocator of the same size: it takes the least free index within the size and
    -- no other and returns its id, or, where all are in use, changes nothing and returns -1.
    pub bf_id_allocator_allocate-TookLeast :
        Returns (bf_id_allocator_allocate judy al) (TookLeast al)
    unfolding bf_id_allocator_allocate_contiguous
    bf_id_allocator_allocate-TookLeast = elim (Option-cases (j1fe al.array 0)) [
      | inl e ↦
          let full : IsFirst (members judy al) false 0 none = rw e at (j1fe-IsFirst al.array 0) in
          (
            (al, minus_one),
            is_single ∙ rw (e, bf_id_allocator_allocate_contiguous) refl,
            all_set (λ k p. full k (omega arith) (omega (arith, valid.small))),
          )
      | inr (index, e) ↦
          let first : IsFirst (members judy al) false 0 (some index) =
            rw e at (j1fe-IsFirst al.array 0) in
          let same = wrap_around_lem judy memory al 1 valid (omega arith) (omega arith) index e in
          elim (Bool-cases (leb al.size index)) [
            | inl over ↦ (
              (al, minus_one),
              is_single ∙ rw (e, bf_id_allocator_allocate_contiguous, same, over) refl,
              all_set (λ k p. first.3 k (omega arith) (omega (arith, leb→le _ _ over))),
            )
            | inr under ↦ (
              (record al { array = (j1s al.array index).0 }, id_of al.zero_based index),
              is_single ∙ rw (e, bf_id_allocator_allocate_contiguous, same, under) refl,
              least_taken index (leb→lt al.size index under) first,
            )
          ]
    ]
