-- ===== src/Power2/Ranges.antt =====
-- `release_block` and `reserve_block` of src/power2_allocator/power2_allocator.c between two blocks
-- in use, on both lists.
use target_utils.Base.{
  ℕ, ◌+◌, ◌-◌, ◌≤◌, ◌<◌, ◌≡◌, ◌≢◌, sym, ap, ◌∙◌, arith, word32, Bool, Option, none, some, ltb, ◌==◌,
  if◌then◌else◌, Bool-cases, ltb→lt, ltb→le, inl, inr,
}
use target_utils.Base.Run.{ok}
use target_utils.Judy.Many.{JudyL, HasMemory}
use target_utils.Power2.{Allocator}
use target_utils.Power2.Calls.{release_block, reserve_block}
use target_utils.Power2.Pieces.{pieces_of}
use target_utils.Power2.Insert.{free_at}
use target_utils.Power2.Gaps.{IsFilled, IsClear, SameOutside, take_gap, fill_gap}
use target_utils.Power2.Blocks.{
  used_at, power2_allocator_mark_inuse_lem, power2_allocator_mark_free_lem, release_block_step,
  reserve_block_step,
}

module _ (judy : JudyL) (asserts : Bool) where
  -- The fields that no call changes.
  abbrev pub SameSizes : Allocator judy → Allocator judy → Type 0
  SameSizes al al' =
      (al'.max_size ≡ al.max_size)
      × (al'.total_size ≡ al.total_size)
      × (al'.no_free_lists ≡ al.no_free_lists)

  -- A range that is filled stays so where neither its free entries nor the lists' number change.
  pub IsFilled-kept :
      (al al' : Allocator judy) (s e : ℕ)
      → al'.no_free_lists ≡ al.no_free_lists
      → ((l k : ℕ) → s ≤ k → k < e → free_at judy al' l k ≡ free_at judy al l k)
      → IsFilled judy al s e
      → IsFilled judy al' s e
  IsFilled-kept al al' s e same out filled l k p q =
      out l k p q ∙ filled l k p q ∙ ap (λ n. pieces_of n s (e - s) l k) (sym same)

  -- The entry in use at `i` is `v`, and the others are as before, as are the free entries but from
  -- `s` up to `e`.
  pub record Changed (al : Allocator judy) (s e i : ℕ) (v : Option ℕ) (after : Allocator judy)
      : Type 0 where
    pub sizes : SameSizes al after
    pub used :
        (k : ℕ) → used_at judy asserts after k ≡ (if i == k then v else used_at judy asserts al k)
    pub outside : SameOutside judy al after s e

  module _ (memory : HasMemory judy) (al : Allocator judy) (s i size e : ℕ)
      (lists : 0 < al.no_free_lists) (few : al.no_free_lists ≤ 32) (before : s ≤ i)
      (behind : i + size ≤ e) (small : e < word32) where
    pub release_block_lem :
        used_at judy asserts al i ≢ none
        → IsFilled judy al s i
        → IsFilled judy al (i + size) e
        → IsClear judy al i (i + size)
        → (after : Allocator judy) × (release_block judy asserts al i size s e ≡ ok (after, 0))
          × Changed al s e i none after
          × IsFilled judy after s e
    release_block_lem used left right mid =
        let (al₁, run₁, kept₁, clear₁, out₁) =
          take_gap judy asserts memory al s i lists few before (omega arith) left in
        let (al₂, run₂, kept₂, clear₂, out₂) =
          take_gap judy asserts memory al₁ (i + size) e (rw kept₁.no_free_lists lists)
            (rw kept₁.no_free_lists few) behind small
            (IsFilled-kept al al₁ (i + size) e kept₁.no_free_lists
              (λ l k p q. out₁ l k (inr (omega arith))) right) in
        let same₂ = kept₂.no_free_lists ∙ kept₁.no_free_lists in
        let (al₃, run₃, kept₃, filled₃, out₃) =
          fill_gap judy asserts memory al₂ s e (rw same₂ lists) (rw same₂ few) (omega arith) small
            (λ l k p q. elim (Bool-cases (ltb k (i + size))) [
              | inr late ↦ clear₂ l k (ltb→le _ _ late) q
              | inl early ↦ out₂ l k (inl (ltb→lt _ _ early)) ∙ elim (Bool-cases (ltb k i)) [
                | inl first ↦ clear₁ l k p (ltb→lt _ _ first)
                | inr within ↦
                    out₁ l k (inr (ltb→le _ _ within))
                    ∙ mid l k (ltb→le _ _ within) (ltb→lt _ _ early)
              ]
            ]) in
        let same_used = kept₃.inuse_list ∙ kept₂.inuse_list ∙ kept₁.inuse_list in
        let (a, run₄, marks) =
          power2_allocator_mark_free_lem judy asserts memory al₃ i
            (λ none_there. used (ap (λ b. judy.lookup b i) (sym same_used) ∙ none_there)) in
        (
          record al₃ { inuse_list = a },
          release_block_step judy asserts al al₁ al₂ al₃ (record al₃ { inuse_list = a }) s i size e
              before behind small run₁ run₂ run₃ run₄,
          record {
            sizes = (
              kept₃.max_size ∙ kept₂.max_size ∙ kept₁.max_size,
              kept₃.total_size ∙ kept₂.total_size ∙ kept₁.total_size,
              kept₃.no_free_lists ∙ same₂,
            );
            used = λ k. marks k ∙ ap (λ b. if i == k then none else judy.lookup b k) same_used;
            outside = λ l k out.
                out₃ l k out
                ∙ out₂ l k (elim out [ inl p ↦ inl (omega arith) | inr p ↦ inr p ])
                ∙ out₁ l k (elim out [ inl p ↦ inl p | inr p ↦ inr (omega arith) ]);
          },
          filled₃,
        )

    pub reserve_block_lem :
        used_at judy asserts al i ≡ none
        → IsFilled judy al s e
        → (after : Allocator judy) × (reserve_block judy asserts al i size s e ≡ ok (after, 0))
          × Changed al s e i (some size) after
          × IsFilled judy after s i
          × IsClear judy after i (i + size)
          × IsFilled judy after (i + size) e
    reserve_block_lem free filled =
        let (al₁, run₁, kept₁, clear₁, out₁) =
          take_gap judy asserts memory al s e lists few (omega arith) small filled in
        let (al₂, run₂, kept₂, filled₂, out₂) =
          fill_gap judy asserts memory al₁ s i (rw kept₁.no_free_lists lists)
            (rw kept₁.no_free_lists few) before (omega arith)
            (λ l k p q. clear₁ l k p (omega arith)) in
        let same₂ = kept₂.no_free_lists ∙ kept₁.no_free_lists in
        let (al₃, run₃, kept₃, filled₃, out₃) =
          fill_gap judy asserts memory al₂ (i + size) e (rw same₂ lists) (rw same₂ few) behind small
            (λ l k p q. out₂ l k (inr (omega arith)) ∙ clear₁ l k (omega arith) q) in
        let same_used = kept₃.inuse_list ∙ kept₂.inuse_list ∙ kept₁.inuse_list in
        let (a, run₄, marks) =
          power2_allocator_mark_inuse_lem judy asserts memory al₃ i size
            (ap (λ b. judy.lookup b i) same_used ∙ free) in
        (
          record al₃ { inuse_list = a },
          reserve_block_step judy asserts al al₁ al₂ al₃ (record al₃ { inuse_list = a }) s i size e
              before behind small run₁ run₂ run₃ run₄,
          record {
            sizes = (
              kept₃.max_size ∙ kept₂.max_size ∙ kept₁.max_size,
              kept₃.total_size ∙ kept₂.total_size ∙ kept₁.total_size,
              kept₃.no_free_lists ∙ same₂,
            );
            used = λ k. marks k ∙ ap (λ b. if i == k then some size else judy.lookup b k) same_used;
            outside = λ l k out.
                out₃ l k (elim out [ inl p ↦ inl (omega arith) | inr p ↦ inr p ])
                ∙ out₂ l k (elim out [ inl p ↦ inl p | inr p ↦ inr (omega arith) ])
                ∙ out₁ l k out;
          },
          IsFilled-kept al₂ al₃ s i kept₃.no_free_lists (λ l k p q. out₃ l k (inl (omega arith)))
              filled₂,
          (λ l k p q. out₃ l k (inl q) ∙ out₂ l k (inr p) ∙ clear₁ l k (omega arith) (omega arith)),
          filled₃,
        )
