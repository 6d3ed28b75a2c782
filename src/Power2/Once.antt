-- ===== src/Power2/Once.antt =====
-- Each index of a valid allocator of src/power2_allocator/power2_allocator.c lies in one block in use or
-- in one free chunk.
use native.Mathlib.Nat.{one-le-pow}
use target_utils.Base.{
  ℕ, suc, ◌+◌, ◌-◌, ◌/◌, ◌^◌, ◌≤◌, ◌<◌, ◌≡◌, refl, sym, ap, ◌∙◌, arith, Bool, true, false, ◌&&◌,
  Option, none, some, ltb, ltb→lt, ltb→le, ◌==◌, ==_iff, if◌then◌else◌, Bool-cases, inl, inr,
}
use target_utils.Judy.Many.{JudyL}
use target_utils.Power2.{Allocator, free_log2_of}
use target_utils.Power2.Pieces.{some_ne_none, piece-half}
use target_utils.Power2.Insert.{free_at}
use target_utils.Power2.Valid.{IsValid, has_lists, blocks_of, left_of}
use target_utils.Power2.Keep.{IsEnd-le}
use target_utils.Power2.Cut.{pieces-IsChunk}
use target_utils.Power2.Chunk.{chunk_bounds, within_chunk}
use target_utils.Power2.Found.{IsFree, around_index, free-IsChunk, pieces_cover}
use target_utils.Power2.Marks.{Covers, IsListed}

module _ (judy : JudyL) (asserts : Bool) (al : Allocator judy) (valid : IsValid judy al) where
  abbrev f : ℕ → ℕ → Option ℕ
  f = free_at judy al

  abbrev used : ℕ → Option ℕ
  used = blocks_of judy al

  -- A free entry that begins in a chunk is the chunk.
  begins_in :
      (l c v l' c' v' : ℕ)
      → f l c ≡ some v
      → f l' c' ≡ some v'
      → c ≤ c'
      → c' < c + v
      → (l ≡ l') × (c ≡ c')
  begins_in l c v l' c' v' here there p q =
      let (s, e, gap, below, chunk) = free-IsChunk judy asserts al valid l c v here in
      let small = valid.small in
      let ordered = gap.ordered in
      let lists = has_lists judy al valid in
      let b = chunk_bounds al.no_free_lists lists valid.few s e l c v ordered (omega arith) chunk in
      let from = b.from in
      let inside = b.inside in
      by_test (l == l') (c == c') (==_iff l l').0 (==_iff c c').0 (
        sym there
        ∙ valid.gaps s e gap l' c' (omega arith) (omega arith)
        ∙ within_chunk al.no_free_lists lists valid.few s e l c v ordered (omega arith) chunk l' c'
            p q)
    where
      by_test :
          (t u : Bool)
          → (t ≡ true → l ≡ l')
          → (u ≡ true → c ≡ c')
          → some v' ≡ (if t && u then some v else none)
          → (l ≡ l') × (c ≡ c')
      by_test true true g h e = (g refl, h refl)
      by_test true false g h e = absurd (some_ne_none e)
      by_test false u g h e = absurd (some_ne_none e)

  -- Two chunks that share an index are one.
  pub chunk_once :
      (l c v l' c' v' k : ℕ)
      → f l c ≡ some v
      → f l' c' ≡ some v'
      → c ≤ k
      → k < c + v
      → c' ≤ k
      → k < c' + v'
      → (l ≡ l') × (c ≡ c')
  chunk_once l c v l' c' v' k here there p q p' q' = elim (Bool-cases (ltb c' c)) [
    | inr late ↦ begins_in l c v l' c' v' here there (ltb→le c' c late) (omega arith)
    | inl early ↦
        let a =
          begins_in l' c' v' l c v there here (let h = ltb→lt c' c early in omega arith)
            (omega arith) in
        (sym a.0, sym a.1)
  ]

  -- The bounds of a free chunk, as the self-check asserts them.
  pub chunk_sizes :
      (l c v : ℕ)
      → f l c ≡ some v
      → (0 < v) × (c + v ≤ al.total_size) × (l < al.no_free_lists) × (v ≤ 2 ^ l) × (2 ^ l / 2 < v)
  chunk_sizes l c v here =
      let (s, e, gap, below, chunk) = free-IsChunk judy asserts al valid l c v here in
      let small = valid.small in
      let ordered = gap.ordered in
      let lists = has_lists judy al valid in
      let b = chunk_bounds al.no_free_lists lists valid.few s e l c v ordered (omega arith) chunk in
      let inside = b.inside in
      let from = b.from in
      let pos = b.pos in
      let power = one-le-pow l 2 (omega arith) in
      let rest : s + (e - s) - c ≡ e - c = omega arith in
      let log : l ≡ free_log2_of al.no_free_lists c (e - c) =
        chunk.2 ∙ ap (free_log2_of al.no_free_lists c) rest in
      (
        pos,
        omega arith,
        b.listed,
        elim b.size [ inl full ↦ omega arith | inr (short, ends) ↦ omega arith ],
        elim b.size [
          | inl full ↦ omega arith
          | inr (short, ends) ↦
              let size : v ≡ e - c = omega arith in
              let half =
                piece-half al.no_free_lists c (e - c) lists valid.few (omega arith) (omega arith)
                  (omega (arith, ap (λ (n : ℕ). 2 ^ n) log)) in
              omega (arith, ap (λ (n : ℕ). 2 ^ n) log, half)
        ],
      )

  pub lists-IsListed : (l : ℕ) → IsListed (f l) al.total_size
  lists-IsListed l = record {
    within = λ c v here. let b = chunk_sizes l c v here in (b.0, b.1);
    apart = λ c v d w here there before. elim (Bool-cases (ltb d (c + v))) [
      | inl inside ↦
          let a = begins_in l c v l d w here there (omega arith) (ltb→lt d (c + v) inside) in
          absurd (let same = a.1 in omega arith)
      | inr beyond ↦ ltb→le d (c + v) beyond
    ];
  }

  pub used-IsListed : IsListed used al.total_size
  used-IsListed = record { within = valid.blocks.within; apart = valid.blocks.apart }

  -- Some free chunk covers an index.
  abbrev pub CoveredFree : ℕ → Type 0
  CoveredFree k = (l : ℕ) × (l < al.no_free_lists) × Covers (f l) k

  pub free_or_used : (k : ℕ) → CoveredFree k → Covers used k → ⊥
  free_or_used k (l, listed, (c, v, here, p, q)) (i, w, there, p', q') =
      let (s, e, gap, below, chunk) = free-IsChunk judy asserts al valid l c v here in
      let small = valid.small in
      let ordered = gap.ordered in
      let b =
        chunk_bounds al.no_free_lists (has_lists judy al valid) valid.few s e l c v ordered
          (omega arith) chunk in
      let inside = b.inside in
      let from = b.from in
      elim (Bool-cases (ltb i s)) [
        | inl early ↦
            let a =
              left_of used al.total_size valid.blocks i w s there (ltb→lt i s early) gap.starts in
            absurd (omega arith)
        | inr late ↦
            absurd (some_ne_none (sym there ∙ gap.unused i (ltb→le i s late) (omega arith)))
      ]

  -- An index that no block covers is in a free chunk.
  pub unused_covered : (k : ℕ) → k < al.total_size → IsFree judy asserts al valid k → CoveredFree k
  unused_covered k below free =
      let (s, e, gap, p, q) = around_index judy asserts al valid k below free in
      let small = valid.small in
      let ends = IsEnd-le used al.total_size e valid.blocks gap.ends in
      let (l, c, v, piece, from, upto) =
        pieces_cover al.no_free_lists (has_lists judy al valid) valid.few (suc (e - s)) s (e - s) k
          (omega arith) (omega arith) p (omega arith) in
      let lists = has_lists judy al valid in
      let chunk =
        pieces-IsChunk al.no_free_lists lists valid.few (suc (e - s)) s (e - s) l c v (omega arith)
          piece in
      let here : f l c ≡ some v =
        valid.gaps s e gap l c chunk.0 (let before = chunk.1 in omega arith) ∙ piece in
      (l, (chunk_sizes l c v here).2, (c, v, here, from, upto))
