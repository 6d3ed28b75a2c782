-- ===== src/Power2/Alloc.antt =====
-- `split_at` of src/power2_allocator/power2_allocator.c, the end of `power2_allocator_alloc`, on a free
-- chunk of a valid allocator.
use target_utils.Base.{
  ℕ, ◌+◌, ◌-◌, ◌^◌, ◌≤◌, ◌<◌, ◌≡◌, refl, sym, ap, ◌∙◌, arith, word32, Bool, true, false, Option,
  none, some, ltb, ltb→lt, ltb→le, ◌==◌, ◌&&◌, if◌then◌else◌, Bool-cases, inl, inr,
}
use target_utils.Base.Run.{ok}
use target_utils.BitUtils.{log2_uint32_ceil}
use target_utils.BitUtils.Log.{log2_uint32_ceil_bounds}
use target_utils.Judy.Many.{JudyL, HasMemory}
use target_utils.Power2.{Allocator}
use target_utils.Power2.Calls.{split_at}
use target_utils.Power2.Pieces.{pieces_of, not_here}
use target_utils.Power2.Insert.{free_at}
use target_utils.Power2.Gaps.{IsFilled, IsClear, fill_gap}
use target_utils.Power2.Blocks.{power2_allocator_mark_inuse_lem}
use target_utils.Power2.Cut.{IsChunk, ceil_mono}
use target_utils.Power2.Take.{Took}
use target_utils.Power2.Place.{IsPlace, split_at_step}
use target_utils.Power2.Ranges.{Changed}
use target_utils.Power2.Valid.{IsGap, IsValid, has_lists, blocks_of}
use target_utils.Power2.Chunk.{ChunkBounds, chunk_bounds, within_chunk, front_split, back_split}

emptied :
    (t : Bool) (v : ℕ) (o : Option ℕ)
    → o ≡ (if t then some v else none)
    → (if t then none else o) ≡ none
emptied true v o h = refl
emptied false v o h = h

not_before : (a : Bool) (c k : ℕ) → k < c → (a && c == k) ≡ false
not_before true c k h = ground arith
not_before false c k h = refl

module _ (judy : JudyL) (asserts : Bool) (memory : HasMemory judy) (al : Allocator judy)
    (valid : IsValid judy al) (size : ℕ) (pos : 0 < size) (le : size ≤ al.max_size) where
  abbrev log2 : ℕ
  log2 = log2_uint32_ceil size

  abbrev nfl : ℕ
  nfl = al.no_free_lists

  pub fits : size ≤ 2 ^ log2
  fits = (log2_uint32_ceil_bounds size pos (let h = valid.largest in omega arith)).0

  pub listed : log2 < nfl
  listed =
      let h = valid.largest in
      let mono = ceil_mono nfl (has_lists judy al valid) valid.few size al.max_size pos le h in
      omega (arith, mono, valid.sized)

  -- A chunk that was taken out of the free lists, in its gap.
  module _ (al₁ : Allocator judy) (l c v : ℕ) (enough : log2 ≤ l)
      (took : Took judy al size l c v al₁) (s e : ℕ)
      (gap : IsGap (blocks_of judy al) al.total_size s e) (below : e ≤ al.total_size)
      (chunk : IsChunk nfl (has_lists judy al valid) valid.few s (e - s) l c v) where
    small_end : e < word32
    small_end = let h = valid.small in omega arith

    pub bounds : ChunkBounds nfl s e l c v
    bounds =
        chunk_bounds nfl (has_lists judy al valid) valid.few s e l c v gap.ordered small_end chunk

    -- The rest of the gap is as it was.
    rest :
        (l' k : ℕ)
        → s ≤ k
        → k < e
        → (l == l' && c == k) ≡ false
        → free_at judy al₁ l' k ≡ pieces_of nfl s (e - s) l' k
    rest l' k p q other =
        took.content l' k
        ∙ ap (λ t. if t then none else free_at judy al l' k) other
        ∙ valid.gaps s e gap l' k p q

    clear : IsClear judy al₁ c (c + v)
    clear l' k p q =
        took.content l' k
        ∙ emptied (l == l' && c == k) v (free_at judy al l' k) (
            valid.gaps s e gap l' k (let h = bounds.from in omega arith)
              (let h = bounds.inside in omega arith)
            ∙ within_chunk nfl (has_lists judy al valid) valid.few s e l c v gap.ordered small_end
                chunk l' k p q)

    -- A block at a place in the chunk.
    module _ (a : ℕ) (place : IsPlace log2 size c v a) where
      pub split_at_lem :
          (after : Allocator judy) × (split_at judy asserts a size al₁ c v ≡ ok (after, a))
          × Changed judy asserts al s e a (some size) after
          × IsFilled judy after s a
          × IsClear judy after a (a + size)
          × IsFilled judy after (a + size) e
      split_at_lem =
          let from = place.from in
          let room = place.room in
          let inside = bounds.inside in
          let start = bounds.from in
          let small = small_end in
          let few = valid.few in
          let lists = has_lists judy al valid in
          let same₁ = took.kept.no_free_lists in
          let (al₂, run₂, kept₂, filled₂, out₂) =
            fill_gap judy asserts memory al₁ c a (rw same₁ lists) (rw same₁ few) from (omega arith)
              (λ l' k p q. clear l' k p (omega arith)) in
          let same₂ = kept₂.no_free_lists ∙ same₁ in
          let (al₃, run₃, kept₃, filled₃, out₃) =
            fill_gap judy asserts memory al₂ (a + size) (c + v) (rw same₂ lists) (rw same₂ few) room
              (omega arith)
              (λ l' k p q. out₂ l' k (inr (omega arith)) ∙ clear l' k (omega arith) q) in
          let same₃ = kept₃.no_free_lists ∙ same₂ in
          let same_used = kept₃.inuse_list ∙ kept₂.inuse_list ∙ took.kept.inuse_list in
          let (b, run₄, marks) =
            power2_allocator_mark_inuse_lem judy asserts memory al₃ a size
              (ap (λ b. judy.lookup b a) same_used ∙ gap.unused a (omega arith) (omega arith)) in
          let front =
            front_split nfl lists few s e l c v gap.ordered small chunk a from (omega arith) in
          let back =
            back_split nfl lists few s e l c v gap.ordered small chunk (a + size) (omega arith)
              room in
          (
            record al₃ { inuse_list = b },
            split_at_step judy asserts size c v a from room (omega arith) al₁ al₂ al₃
                (record al₃ { inuse_list = b }) run₂ run₃ run₄,
            record {
              sizes = (
                kept₃.max_size ∙ kept₂.max_size ∙ took.kept.max_size,
                kept₃.total_size ∙ kept₂.total_size ∙ took.kept.total_size,
                same₃,
              );
              used =
                  λ k. marks k ∙ ap (λ b. if a == k then some size else judy.lookup b k) same_used;
              outside = λ l' k out.
                  out₃ l' k (elim out [ inl p ↦ inl (omega arith) | inr p ↦ inr (omega arith) ])
                  ∙ out₂ l' k (elim out [ inl p ↦ inl (omega arith) | inr p ↦ inr (omega arith) ])
                  ∙ took.content l' k
                  ∙ ap (λ t. if t then none else free_at judy al l' k)
                      (elim out [
                        | inl p ↦ not_before (l == l') c k (omega arith)
                        | inr p ↦ not_here (l == l') c k (let h = bounds.pos in omega arith)
                      ]);
            },
            (λ l' k p q. out₃ l' k (inl (omega arith)) ∙ elim (Bool-cases (ltb k c)) [
              | inl early ↦
                  let h = ltb→lt k c early in
                  out₂ l' k (inl h)
                  ∙ rest l' k p (omega arith) (not_before (l == l') c k h)
                  ∙ sym (front.0 l' k h)
                  ∙ ap (λ n. pieces_of n s (a - s) l' k) (sym same₃)
              | inr late ↦
                  let h = ltb→le k c late in
                  let left : s + (a - s) - c ≡ a - c = omega arith in
                  filled₂ l' k h q
                  ∙ ap (λ n. pieces_of n c (a - c) l' k) same₂
                  ∙ sym (front.1 l' k h ∙ ap (λ n. pieces_of nfl c n l' k) left)
                  ∙ ap (λ n. pieces_of n s (a - s) l' k) (sym same₃)
            ]),
            (λ l' k p q.
                out₃ l' k (inl q) ∙ out₂ l' k (inr p) ∙ clear l' k (omega arith) (omega arith)),
            λ l' k p q. elim (Bool-cases (ltb k (c + v))) [
              | inl near ↦
                  let h = ltb→lt k (c + v) near in
                  filled₃ l' k p h
                  ∙ ap (λ n. pieces_of n (a + size) (c + v - (a + size)) l' k) same₃
                  ∙ sym (back.0 l' k h)
                  ∙ ap (λ n. pieces_of n (a + size) (e - (a + size)) l' k) (sym same₃)
              | inr far ↦
                  let h = ltb→le k (c + v) far in
                  out₃ l' k (inr h)
                  ∙ out₂ l' k (inr (omega arith))
                  ∙ rest l' k (omega arith) q (not_here (l == l') c k (omega arith))
                  ∙ sym (back.1 l' k h q)
                  ∙ ap (λ n. pieces_of n (a + size) (e - (a + size)) l' k) (sym same₃)
            ],
          )
