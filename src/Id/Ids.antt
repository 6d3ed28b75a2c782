-- ===== src/Id/Ids.antt =====
-- `bf_id_allocator_new` and `bf_id_allocator_allocate_contiguous` of src/id/id.c in terms of ids.
use target_utils.Base.{
  ℕ, zero, suc, ◌≤◌, ◌<◌, ◌≡◌, refl, ap, ◌∙◌, Bool, true, false, ◌||◌, arith, word32, sub32, inr,
  if◌then◌else◌,
}
use target_utils.Base.Run.{Returns}
use target_utils.Judy.One.{Judy1, HasMemory}
use target_utils.Id.{
  Allocator, id_of, bf_id_allocator_new, bf_id_allocator_allocate_contiguous,
  bf_id_allocator_is_set,
}
use target_utils.Id.Room.{IsRoom, IsSettled}
use target_utils.Id.Allocate.{
  members, IsValid, in_run, TookFirst, bf_id_allocator_allocate_contiguous-TookFirst,
}
use target_utils.Id.InUse.{IsId, IsId-lt, holds_or, holds-in_run, run_ids, is_set, is_set-holds}

module _ (judy : Judy1) where
  open judy use {empty, test, test-empty}

  -- A new allocator of a size below 2^31 is valid, and no id is in use.
  pub bf_id_allocator_new-IsValid :
      (size : ℕ) (zero_based : Bool)
      → size < 0x8000_0000
      → let al = bf_id_allocator_new judy size zero_based in
        IsValid judy al × ((id : ℕ) → is_set judy al id ≡ false)
  unfolding bf_id_allocator_new bf_id_allocator_is_set
  bf_id_allocator_new-IsValid size true h =
      (record { small = h; bounded = λ k p. test-empty k }, λ id. test-empty id)
  bf_id_allocator_new-IsValid size false h = (
    record { small = h; bounded = λ k p. test-empty k },
    λ id. ground (arith, test-empty (sub32 id 1)),
  )

  -- Which ids are in use after a run was taken; those of the run were free.
  abbrev pub TookIds : Allocator judy → ℕ → Allocator judy × ℕ → Type 0
  TookIds al count r =
      IsValid judy r.0
      × ((id : ℕ)
          → in_run r.1 count id ≡ true
          → IsId al.zero_based id × (is_set judy al id ≡ false))
      × ((id : ℕ) → id < word32 → is_set judy r.0 id ≡ in_run r.1 count id || is_set judy al id)

  module _ (al : Allocator judy) (count : ℕ) (valid : IsValid judy al) where
    TookFirst-TookIds : (r : Allocator judy × ℕ) → TookFirst judy al count r → TookIds al count r
    TookFirst-TookIds r (shape, (q, room, first, (e, marked))) =
        let run =
          λ (id : ℕ). holds-in_run q count al.zero_based id (omega (arith, room.0, valid.small)) in
        (
          record {
            small = omega (arith, shape.0, valid.small);
            bounded = λ k p.
                let far : al.size ≤ k = omega (arith, shape.0) in
                rw (marked k) (ground (arith, valid.bounded k far, room.0));
          },
          (λ id t.
              let inside : in_run (id_of al.zero_based q) count id ≡ true = rw e at t in
              let u =
                run_ids (members judy al) q count al.size al.zero_based id room.0 valid.small room.1
                  (run id ∙ inside) in
              (u.0, is_set-holds judy al id (IsId-lt al.zero_based id u.0) ∙ u.1)),
          λ id h.
              rw (is_set-holds judy _ id h, is_set-holds judy al id h, shape.1, e, ← run id)
                (holds_or (in_run q count) (members judy al) _ al.zero_based id marked),
        )

  module _ (memory : HasMemory judy) where
    -- On a valid allocator and a count of 1 to 255, as long as memory does not run out, where some
    -- run of `count` free indexes within the size has an index in use behind it or has all indexes
    -- before it in use, `bf_id_allocator_allocate_contiguous` ends; the ids that it hands out were
    -- free, are ids of this allocator, and are in use afterwards; every other id is as before, and
    -- the allocator stays valid: no id beyond the size comes into use.
    pub is_set-allocate :
        (al : Allocator judy) (count p : ℕ)
        → IsValid judy al
        → 0 < count
        → count < 256
        → IsSettled (members judy al) al.size count p
        → Returns (bf_id_allocator_allocate_contiguous judy al count) (TookIds al count)
    is_set-allocate al count p valid pos byte settled =
        let (r, run, took) =
          bf_id_allocator_allocate_contiguous-TookFirst judy memory al count valid pos byte p
            settled in
        (r, run, TookFirst-TookIds al count valid r took)

    -- As long as memory does not run out, the first call of `bf_id_allocator_allocate_contiguous`
    -- on a new allocator, for 1 to 255 ids and at most its size, which is below 2^31, ends and
    -- hands out the ids from 0 on, or from 1 on where the allocator is not zero-based; exactly
    -- these are in use afterwards, and the size and the base are those it was made with.
    pub allocate-new :
        (size count : ℕ) (zero_based : Bool)
        → size < 0x8000_0000
        → 0 < count
        → count < 256
        → count ≤ size
        → Returns
            (bf_id_allocator_allocate_contiguous judy
              (bf_id_allocator_new judy size zero_based)
              count)
            (λ r.
              (r.0.size ≡ size)
              × (r.0.zero_based ≡ zero_based)
              × (r.1 ≡ (if zero_based then 0 else 1))
              × ((id : ℕ) → id < word32 → is_set judy r.0 id ≡ in_run r.1 count id))
    unfolding bf_id_allocator_new
    allocate-new size count zero_based small pos byte fits =
        let al = bf_id_allocator_new judy size zero_based in
        let (valid, unused) = bf_id_allocator_new-IsValid size zero_based small in
        let room : IsRoom (members judy al) al.size count 0 = new_room in
        let (r, run, took) =
          bf_id_allocator_allocate_contiguous-TookFirst judy memory al count valid pos byte 0
            (room, inr (λ k h. absurd (omega arith))) in
        let (shape, (q, here, first, (e, marked))) = took in
        let start : q ≡ 0 = at_start q (first 0) room in
        (
          r,
          run,
          (
            shape.0,
            shape.1,
            e ∙ ap (id_of al.zero_based) start ∙ new_id zero_based,
            λ id h.
                (TookFirst-TookIds al count valid r took).2 id h
                ∙ ap (λ b. in_run r.1 count id || b) (unused id)
                ∙ or_false (in_run r.1 count id),
          ),
        )
      where
        new_room : IsRoom (test empty) size count 0
        new_room = (omega arith, λ k p q. test-empty k)

        at_start :
            (q : ℕ)
            → (0 < q → ¬ IsRoom (test empty) size count 0)
            → IsRoom (test empty) size count 0
            → q ≡ 0
        at_start zero h room = refl
        at_start (suc q) h room = absurd (h (omega arith) room)

        new_id : (b : Bool) → id_of b 0 ≡ (if b then 0 else 1)
        new_id true = refl
        new_id false = refl

        or_false : (b : Bool) → b || false ≡ b
        or_false true = refl
        or_false false = refl
