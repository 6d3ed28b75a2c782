-- ===== src/Power2/Valid.antt =====
-- The invariant of an allocator of src/power2_allocator/power2_allocator.c: the blocks in use lie
-- apart, and the free lists hold the chunks of the gaps between them and nothing there besides.
use target_utils.Base.{
  ℕ, ◌+◌, ◌≤◌, ◌<◌, ◌≡◌, sym, ◌∙◌, arith, minus_one, word32, Option, none, some, Bool-cases, ◌⊎◌,
  inl, inr, ltb, ltb→lt, ltb→le,
}
use target_utils.BitUtils.{log2_uint32_ceil}
use target_utils.Judy.Many.{JudyL}
use target_utils.Power2.{Allocator}
use target_utils.Power2.Pieces.{some_ne_none}
use target_utils.Power2.Insert.{free_at}
use target_utils.Power2.Gaps.{IsFilled, IsClear}

-- The blocks in use, as a function from the index to the size, lie within the first `total` indexes
-- and apart from each other.
pub record IsApart (used : ℕ → Option ℕ) (total : ℕ) : Type 0 where
  pub within : (i v : ℕ) → used i ≡ some v → (0 < v) × (i + v ≤ total)
  pub apart : (i v j w : ℕ) → used i ≡ some v → used j ≡ some w → i < j → i + v ≤ j

abbrev pub IsStart : (ℕ → Option ℕ) → ℕ → Type 0
IsStart used s = (s ≡ 0) ⊎ ((p : ℕ) × (v : ℕ) × (used p ≡ some v) × (p + v ≡ s))

abbrev pub IsEnd : (ℕ → Option ℕ) → ℕ → ℕ → Type 0
IsEnd used total e = (e ≡ total) ⊎ ((v : ℕ) × (used e ≡ some v))

-- From `s` up to `e` no block is in use, and a block or the border stands on each side.
pub record IsGap (used : ℕ → Option ℕ) (total s e : ℕ) : Type 0 where
  pub starts : IsStart used s
  pub ends : IsEnd used total e
  pub ordered : s ≤ e
  pub unused : (k : ℕ) → s ≤ k → k < e → used k ≡ none

module _ (used : ℕ → Option ℕ) (total : ℕ) (is_apart : IsApart used total) where
  -- A block that begins before a gap ends before it.
  pub left_of : (b v s : ℕ) → used b ≡ some v → b < s → IsStart used s → b + v ≤ s
  left_of b v s there early (inl zero_start) = absurd (omega arith)
  left_of b v s there early (inr (c, w, here, ends)) = elim (Bool-cases (ltb b c)) [
    | inl before ↦ let a = is_apart.apart b v c w there here (ltb→lt b c before) in omega arith
    | inr after ↦ elim (Bool-cases (ltb c b)) [
      | inl behind ↦
          let a = is_apart.apart c w b v here there (ltb→lt c b behind) in absurd (omega arith)
      | inr level ↦
          let same : b ≡ c = omega (arith, ltb→le b c after, ltb→le c b level) in
          let size : v ≡ w = cc in omega arith
    ]
  ]

  -- The gap that an index lies in starts and ends at one place.
  start_le :
      (s e s' e' k : ℕ)
      → IsGap used total s e
      → IsGap used total s' e'
      → s ≤ k
      → k < e
      → s' ≤ k
      → k < e'
      → s' ≤ s
  start_le s e s' e' k g g' p q p' q' = elim g'.starts [
    | inl zero_start ↦ omega arith
    | inr (b, v, there, ends) ↦ elim (Bool-cases (ltb b s)) [
      | inl early ↦ let a = left_of b v s there (ltb→lt b s early) g.starts in omega arith
      | inr late ↦
          let pos = (is_apart.within b v there).0 in
          absurd (some_ne_none (sym there ∙ g.unused b (ltb→le b s late) (omega arith)))
    ]
  ]

  end_le :
      (s e s' e' k : ℕ)
      → IsGap used total s e
      → IsGap used total s' e'
      → s ≤ k
      → k < e
      → s' ≤ k
      → k < e'
      → e' ≤ e
  end_le s e s' e' k g g' p q p' q' = elim g.ends [
    | inl border ↦ elim g'.ends [
      | inl border' ↦ omega arith
      | inr (w, here) ↦ let a = is_apart.within e' w here in omega (arith, a)
    ]
    | inr (v, there) ↦ elim (Bool-cases (ltb e e')) [
      | inl inside ↦
          absurd (some_ne_none (sym there ∙ g'.unused e (omega arith) (ltb→lt e e' inside)))
      | inr beyond ↦ ltb→le e e' beyond
    ]
  ]

  pub gap_unique :
      (s e s' e' k : ℕ)
      → IsGap used total s e
      → IsGap used total s' e'
      → s ≤ k
      → k < e
      → s' ≤ k
      → k < e'
      → (s' ≡ s) × (e' ≡ e)
  gap_unique s e s' e' k g g' p q p' q' =
      let a = start_le s e s' e' k g g' p q p' q' in
      let a' = start_le s' e' s e k g' g p' q' p q in
      let b = end_le s e s' e' k g g' p q p' q' in
      let b' = end_le s' e' s e k g' g p' q' p q in (omega arith, omega arith)

module _ (judy : JudyL) where
  abbrev pub blocks_of : Allocator judy → ℕ → Option ℕ
  blocks_of al k = judy.lookup al.inuse_list k

  pub record IsValid (al : Allocator judy) : Type 0 where
    pub sized : al.no_free_lists ≡ log2_uint32_ceil al.max_size + 1
    pub largest : al.max_size < word32
    pub few : al.no_free_lists ≤ 32
    pub small : al.total_size < minus_one
    pub wide : al.total_size + al.max_size ≤ word32
    pub blocks : IsApart (blocks_of al) al.total_size
    pub gaps : (s e : ℕ) → IsGap (blocks_of al) al.total_size s e → IsFilled judy al s e
    pub busy : (i v : ℕ) → blocks_of al i ≡ some v → IsClear judy al i (i + v)
    pub beyond : (l k : ℕ) → al.total_size ≤ k → free_at judy al l k ≡ none

  pub has_lists : (al : Allocator judy) → IsValid al → 0 < al.no_free_lists
  has_lists al valid = omega (arith, valid.sized)
