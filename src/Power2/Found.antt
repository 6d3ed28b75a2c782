-- ===== src/Power2/Found.antt =====
-- Free chunks and free indexes in a valid allocator of src/power2_allocator/power2_allocator.c.
use target_utils.Base.{
  ℕ, zero, suc, ◌+◌, ◌-◌, ◌≤◌, ◌<◌, ◌≡◌, refl, sym, ap, ◌∙◌, arith, word32, Option, none, some,
  Bool, ◌==◌, ==_refl, ltb, if◌then◌else◌, Bool-cases, Option-cases, ltb→lt, ltb→le, inl, inr,
}
use target_utils.Judy.Many.{JudyL}
use target_utils.Power2.{
  Allocator, free_log2_of, piece_of, power2_allocator_get_next_inuse_block,
  power2_allocator_get_prev_inuse_block,
}
use target_utils.Power2.Calls.{start_of, end_of}
use target_utils.Power2.Pieces.{pieces, pieces_step, piece_bounds, not_here, some_ne_none}
use target_utils.Power2.Insert.{free_at}
use target_utils.Power2.Cut.{IsChunk, pieces-IsChunk}
use target_utils.Power2.Take.{IsInside}
use target_utils.Power2.Valid.{IsGap, IsValid, has_lists, blocks_of}
use target_utils.Power2.Neighbours.{start_of_lem, end_of_lem}
use target_utils.Power2.Keep.{IsEnd-le}
use target_utils.Power2.Chunk.{chunk_bounds}

-- Each index of a range lies in one of its chunks.
pub pieces_cover :
    (nfl : ℕ) (lists : 0 < nfl) (few : nfl ≤ 32) (fuel s r k : ℕ)
    → r < fuel
    → s + r < word32
    → s ≤ k
    → k < s + r
    → (l : ℕ) × (c : ℕ) × (v : ℕ) × (pieces fuel nfl s r l c ≡ some v) × (c ≤ k) × (k < c + v)
pieces_cover nfl lists few zero s r k enough h p q = absurd (omega arith)
pieces_cover nfl lists few (suc fuel) s r k enough h p q =
    let pos : 0 < r = omega arith in
    let b = piece_bounds nfl s r lists few pos h in
    let fl = free_log2_of nfl s r in
    let piece = piece_of fl r in
    elim (Bool-cases (ltb k (s + piece))) [
      | inl near ↦ (
        fl,
        s,
        piece,
        pieces_step fuel nfl s r fl s pos ∙ rw (==_refl fl, ==_refl s) refl,
        p,
        ltb→lt k (s + piece) near,
      )
      | inr far ↦
          let (l, c, v, there, from, upto) =
            pieces_cover nfl lists few fuel (s + piece) (r - piece) k (omega (arith, b))
              (omega (arith, b)) (ltb→le k (s + piece) far) (omega (arith, b)) in
          let chunk =
            pieces-IsChunk nfl lists few fuel (s + piece) (r - piece) l c v (omega (arith, b))
              there in
          let before = chunk.0 in
          (
            l,
            c,
            v,
            pieces_step fuel nfl s r l c pos
                ∙ ap (λ t. if t then some piece else pieces fuel nfl (s + piece) (r - piece) l c)
                    (not_here (fl == l) s c (omega (arith, b, before)))
                ∙ there,
            from,
            upto,
          )
    ]

module _ (judy : JudyL) (asserts : Bool) (al : Allocator judy) (valid : IsValid judy al) where
  abbrev used : ℕ → Option ℕ
  used = blocks_of judy al

  -- No block in use covers an index.
  abbrev pub IsFree : ℕ → Type 0
  IsFree k = (i v : ℕ) → used i ≡ some v → i ≤ k → k < i + v → ⊥

  pub around_index :
      (k : ℕ)
      → k < al.total_size
      → IsFree k
      → (s : ℕ) × (e : ℕ) × IsGap used al.total_size s e × (s ≤ k) × (k < e)
  around_index k inside free =
      let a = start_of_lem judy asserts al valid k in
      let b = end_of_lem judy asserts al valid k in
      let s : ℕ = start_of judy asserts (power2_allocator_get_prev_inuse_block judy al k) in
      let e : ℕ =
        end_of judy asserts al.total_size (power2_allocator_get_next_inuse_block judy al k) in
      let before : s ≤ k = elim a.2 [
        | inl zero_start ↦ omega arith
        | inr (p, v, early, there, ends) ↦ elim (Bool-cases (ltb k (p + v))) [
          | inl covered ↦ absurd (free p v there (omega arith) (ltb→lt k (p + v) covered))
          | inr clear ↦ let c = ltb→le k (p + v) clear in omega arith
        ]
      ] in
      let behind : k < e = elim b.2 [ inl later ↦ later | inr border ↦ omega arith ] in
      (
        s,
        e,
        record {
          starts = a.0;
          ends = b.0;
          ordered = omega (arith, before, behind);
          unused = λ j p q. elim (Bool-cases (ltb j k)) [
            | inl early ↦ a.1 j p (ltb→lt j k early)
            | inr late ↦ elim (Bool-cases (ltb k j)) [
              | inl later ↦ b.3 j (ltb→lt k j later) q
              | inr level ↦
                  let same : k ≡ j = omega (arith, ltb→le j k late, ltb→le k j level) in
                  ap used (sym same) ∙ unused_here
            ]
          ];
        },
        before,
        behind,
      )
    where
      unused_here : used k ≡ none
      unused_here = elim (Option-cases (used k)) [
        | inl gone ↦ gone
        | inr (v, there) ↦
            let pos = (valid.blocks.within k v there).0 in
            absurd (free k v there (omega arith) (omega arith))
      ]

  -- A free entry is a chunk of a gap.
  pub free-IsChunk :
      (l c v : ℕ)
      → free_at judy al l c ≡ some v
      → (s : ℕ) × (e : ℕ) × IsGap used al.total_size s e
        × (e ≤ al.total_size)
        × IsChunk al.no_free_lists (has_lists judy al valid) valid.few s (e - s) l c v
  free-IsChunk l c v there =
      let (s, e, gap, before, behind) = around_index c inside free in
      let below = IsEnd-le used al.total_size e valid.blocks gap.ends in
      let small = valid.small in
      (
        s,
        e,
        gap,
        below,
        pieces-IsChunk al.no_free_lists (has_lists judy al valid) valid.few (suc (e - s)) s (e - s)
            l c v (omega arith) (sym (valid.gaps s e gap l c before behind) ∙ there),
      )
    where
      inside : c < al.total_size
      inside = elim (Bool-cases (ltb c al.total_size)) [
        | inl near ↦ ltb→lt c al.total_size near
        | inr far ↦
            absurd (some_ne_none (sym there ∙ valid.beyond l c (ltb→le c al.total_size far)))
      ]

      free : IsFree c
      free i w block p q = some_ne_none (sym there ∙ valid.busy i w block l c p q)

  pub free-IsInside : IsInside judy al
  free-IsInside l k v there =
      let (s, e, gap, below, chunk) = free-IsChunk l k v there in
      let small = valid.small in
      let ordered = gap.ordered in
      let b =
        chunk_bounds al.no_free_lists (has_lists judy al valid) valid.few s e l k v ordered
          (omega arith) chunk in
      (b.pos, let inside = b.inside in omega arith)
