-- ===== src/Power2/Chunk.antt =====
-- The free chunks of a valid allocator of src/power2_allocator/power2_allocator.c: each lies in a gap
-- between blocks, and the gap is free in front of it and behind it.
use native.Mathlib.Nat.{one-le-pow}
use target_utils.Base.{
  ℕ, suc, ◌+◌, ◌-◌, ◌^◌, ◌≤◌, ◌<◌, ◌≡◌, sym, ap, ◌∙◌, arith, word32, none, some, ◌&&◌, ◌==◌, ltb,
  if◌then◌else◌, Bool-cases, ltb→lt, ◌⊎◌, inl, inr,
}
use target_utils.Power2.{free_log2_of, piece_of}
use target_utils.Power2.Pieces.{pieces_of, not_here, free_log2_of_bounds}
use target_utils.Power2.Cut.{IsChunk, pieces_of_step, pieces_of_out, Splits}
use target_utils.Power2.Align.{IsMultiple, ctz-IsMultiple, block_split}

-- A chunk of `2 ^ l`, aligned to that, in the range from `s` up to `e`: of its full size, or cut short
-- by the end of the range.
pub record ChunkBounds (nfl s e l c v : ℕ) : Type 0 where
  pub from : s ≤ c
  pub inside : c + v ≤ e
  pub pos : 0 < v
  pub listed : l < nfl
  pub aligned : IsMultiple l c
  pub size : (v ≡ 2 ^ l) ⊎ ((v < 2 ^ l) × (c + v ≡ e))

module _ (nfl : ℕ) (lists : 0 < nfl) (few : nfl ≤ 32) (s e l c v : ℕ) (le : s ≤ e)
    (small : e < word32) (chunk : IsChunk nfl lists few s (e - s) l c v) where
  left : s + (e - s) - c ≡ e - c
  left = omega arith

  log : l ≡ free_log2_of nfl c (e - c)
  log = chunk.2 ∙ ap (free_log2_of nfl c) left

  size_here : v ≡ piece_of l (e - c)
  size_here = chunk.3 ∙ ap (piece_of l) left

  pub chunk_bounds : ChunkBounds nfl s e l c v
  chunk_bounds =
      let b =
        free_log2_of_bounds nfl c (e - c) lists few (omega (arith, chunk.1))
          (omega (arith, chunk.1)) in
      let p = one-le-pow l 2 (omega arith) in
      let h = size_here in
      let inside = chunk.1 in
      let listed : l < nfl = omega (arith, b.0, log) in
      record {
        from = chunk.0;
        inside = ground (arith, h, p, inside);
        pos = ground (arith, h, p, inside);
        listed = listed;
        aligned = ctz-IsMultiple c l (omega (arith, inside)) (omega (arith, b.1, log));
        size = elim (Bool-cases (ltb (e - c) (2 ^ l))) [
          | inl short ↦
              let here : v ≡ e - c = h ∙ ap (λ t. if t then e - c else 2 ^ l) short in
              inr (omega (arith, here, ltb→lt (e - c) (2 ^ l) short), omega (arith, here, inside))
          | inr full ↦ inl (h ∙ ap (λ t. if t then e - c else 2 ^ l) full)
        ];
      }

  from_chunk :
      (l' k : ℕ)
      → c ≤ k
      → pieces_of nfl s (e - s) l' k
        ≡ (if l == l' && c == k then some v else pieces_of nfl (c + v) (e - (c + v)) l' k)
  from_chunk l' k p =
      let inside = chunk.1 in
      let split = chunk.4 (e - s) (omega arith) (omega arith) in
      let rest : e - c - v ≡ e - (c + v) = omega arith in
      split.1 l' k p
      ∙ ap (λ n. pieces_of nfl c n l' k) left
      ∙ pieces_of_step nfl lists few c (e - c) l' k (omega arith) (omega arith)
      ∙ ap
          (λ n.
            if n == l' && c == k
            then some (piece_of n (e - c))
            else pieces_of nfl (c + piece_of n (e - c)) (e - c - piece_of n (e - c)) l' k)
          (sym log)
      ∙ ap (λ n. if l == l' && c == k then some n else pieces_of nfl (c + n) (e - c - n) l' k)
          (sym size_here)
      ∙ ap (λ n. if l == l' && c == k then some v else pieces_of nfl (c + v) n l' k) rest

  -- In the chunk there is no other.
  pub within_chunk :
      (l' k : ℕ)
      → c ≤ k
      → k < c + v
      → pieces_of nfl s (e - s) l' k ≡ (if l == l' && c == k then some v else none)
  within_chunk l' k p q =
      let b = chunk_bounds in
      from_chunk l' k p
      ∙ ap (λ o. if l == l' && c == k then some v else o)
          (pieces_of_out nfl lists few (c + v) (e - (c + v)) l' k (omega (arith, b.inside)) (inl q))

  behind_chunk :
      (l' k : ℕ)
      → c + v ≤ k
      → pieces_of nfl s (e - s) l' k ≡ pieces_of nfl (c + v) (e - (c + v)) l' k
  behind_chunk l' k p =
      let b = chunk_bounds in
      from_chunk l' k (omega (arith, b.pos))
      ∙ ap (λ t. if t then some v else pieces_of nfl (c + v) (e - (c + v)) l' k)
          (not_here (l == l') c k (omega (arith, b.pos)))

  -- The range up to a place in the chunk, and the range from a place behind its start on.
  pub front_split : (a : ℕ) → c ≤ a → a ≤ e → Splits nfl lists few s (e - s) c (a - s)
  front_split a p q = let from = chunk.0 in chunk.4 (a - s) (omega arith) (omega arith)

  pub back_split :
      (b : ℕ)
      → c < b
      → b ≤ c + v
      → ((l' k : ℕ) → k < c + v → pieces_of nfl b (e - b) l' k ≡ pieces_of nfl b (c + v - b) l' k)
        × ((l' k : ℕ)
            → c + v ≤ k
            → k < e
            → pieces_of nfl b (e - b) l' k ≡ pieces_of nfl s (e - s) l' k)
  back_split b p q = elim chunk_bounds.size [
    | inl full ↦
        let bounds = chunk_bounds in
        let end : IsMultiple l (c + v) =
          (suc bounds.aligned.0, omega (arith, full, bounds.aligned.1)) in
        let (front, back) =
          block_split nfl lists few l (c + v) e bounds.listed end bounds.inside small
            (suc (c + v - b)) b (omega arith) q (omega (arith, full)) in
        (front, λ l' k p' q'. back l' k p' ∙ sym (behind_chunk l' k p'))
    | inr short ↦ (
      (λ l' k p'. ap (λ n. pieces_of nfl b (n - b) l' k) (sym short.1)),
      λ l' k p' q'. absurd (omega (arith, short.1)),
    )
  ]
