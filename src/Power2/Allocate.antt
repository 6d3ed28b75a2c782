-- ===== src/Power2/Allocate.antt =====
-- `power2_allocator_alloc` of src/power2_allocator/power2_allocator.c as a whole.
use native.Mathlib.Nat.{pow-le-pow_right}
use target_utils.Base.{
  ℕ, suc, ◌+◌, ◌-◌, ◌≤◌, ◌<◌, ◌≡◌, refl, sym, ap, ◌∙◌, arith, minus_one, word32, Bool, true, false,
  some, ltb, ltb→lt, ltb→le, lt→ltb, ◌==◌, if◌then◌else◌, Bool-cases, ◌⊎◌, inl, inr,
}
use target_utils.Base.Run.{Run, ok, ◌>>=◌}
use target_utils.BitUtils.{log2_uint32_ceil}
use target_utils.BitUtils.Log.{log2_uint32_ceil-le}
use target_utils.BitUtils.Trailing.{ctz_greatest}
use target_utils.Judy.Many.{JudyL, HasMemory}
use target_utils.Power2.{Allocator, free_log2_of}
use target_utils.Power2.Calls.{last_fit, take_chunk, split_chunk, power2_allocator_alloc}
use target_utils.Power2.Insert.{free_at}
use target_utils.Power2.Cut.{IsChunk, pieces-IsChunk, ceil_mono}
use target_utils.Power2.Align.{IsMultiple, IsMultiple-smaller, IsMultiple-apart}
use target_utils.Power2.Take.{TooSmall, TookFrom, take_chunk-TookFrom}
use target_utils.Power2.Place.{last_fit-IsPlace}
use target_utils.Power2.Ranges.{SameSizes}
use target_utils.Power2.Valid.{IsGap, IsValid, has_lists, blocks_of}
use target_utils.Power2.Keep.{added-IsValid, IsEnd-le}
use target_utils.Power2.Chunk.{ChunkBounds, chunk_bounds}
use target_utils.Power2.Found.{around_index, free-IsChunk, free-IsInside, pieces_cover}
use target_utils.Power2.Alloc.{fits, listed, bounds, split_at_lem}
use target_utils.Power2.Reserved.{add_block}
use target_utils.Power2.Reserve.{Taken, inside_gap}

module _ (judy : JudyL) (asserts : Bool) where
  -- A free range of the size, aligned to the power of two that the size is rounded up to.
  abbrev pub IsRoom : Allocator judy → ℕ → ℕ → Type 0
  IsRoom al size a = IsMultiple (log2_uint32_ceil size) a × (¬ (Taken judy asserts al a size))

  -- The call returned -1 and changed nothing, as the size is too large or there is no room; or it
  -- returned the start of some room, which is one more block in use of a valid allocator of the same
  -- sizes.
  abbrev pub Allocated : Allocator judy → ℕ → Run (Allocator judy × ℕ) → Type 0
  Allocated al size run =
      ((run ≡ ok (al, minus_one)) × ((al.max_size < size) ⊎ ((a : ℕ) → ¬ (IsRoom al size a))))
      ⊎ ((al' : Allocator judy) × (a : ℕ) × (run ≡ ok (al', a))
          × (size ≤ al.max_size)
          × IsRoom al size a
          × IsValid judy al'
          × SameSizes judy asserts al al'
          × ((k : ℕ) → blocks_of judy al' k ≡ add_block (blocks_of judy al) a size k))

  -- What the search for a chunk leads to.
  alloc_step :
      (al al₁ : Allocator judy) (size c v : ℕ) (t : Bool)
      → ltb al.max_size size ≡ false
      → let log2 = log2_uint32_ceil size in
        take_chunk judy asserts (al.no_free_lists - log2) log2 size al 0 ≡ ok (al₁, c, v)
        → (c == minus_one) ≡ t
        → power2_allocator_alloc judy asserts al size
          ≡ (if t then ok (al₁, minus_one) else split_chunk judy asserts log2 size al₁ c v)
  unfolding power2_allocator_alloc
  alloc_step al al₁ size c v t small run found =
      let log2 = log2_uint32_ceil size in
      ap
        (λ b. if b then ok (al, minus_one) else (do
          (al', i, s) ← take_chunk judy asserts (al.no_free_lists - log2) log2 size al 0
          elim (i == minus_one) [
            | true ↦ ok (al', minus_one)
            | false ↦ split_chunk judy asserts log2 size al' i s
          ]))
        small
      ∙ ap
          (λ r. do
            (al', i, s) ← r
            elim (i == minus_one) [
              | true ↦ ok (al', minus_one)
              | false ↦ split_chunk judy asserts log2 size al' i s
            ])
          run
      ∙ ap
          (λ b. elim b [
            | true ↦ ok (al₁, minus_one)
            | false ↦ split_chunk judy asserts log2 size al₁ c v
          ])
          found
      ∙ by_test t
    where
      by_test :
          (t : Bool)
          → (elim t as (λ x. Run (Allocator judy × ℕ)) [
            | true ↦ ok (al₁, minus_one)
            | false ↦ split_chunk judy asserts (log2_uint32_ceil size) size al₁ c v
          ])
            ≡ (if t
                then ok (al₁, minus_one)
                else split_chunk judy asserts (log2_uint32_ceil size) size al₁ c v)
      by_test true = refl
      by_test false = refl

  alloc_too_large :
      (al : Allocator judy) (size : ℕ)
      → al.max_size < size
      → power2_allocator_alloc judy asserts al size ≡ ok (al, minus_one)
  unfolding power2_allocator_alloc
  alloc_too_large al size large = rw (lt→ltb al.max_size size large) refl

  module _ (memory : HasMemory judy) (al : Allocator judy) (valid : IsValid judy al) (size : ℕ)
      (pos : 0 < size) (le : size ≤ al.max_size) where
    abbrev log2 : ℕ
    log2 = log2_uint32_ceil size

    abbrev nfl : ℕ
    nfl = al.no_free_lists

    -- A chunk that holds an aligned index with room behind it lies in a list that is searched.
    log_ge :
        (a e : ℕ)
        → IsMultiple log2 a
        → a + size ≤ e
        → e < word32
        → log2 ≤ free_log2_of nfl a (e - a)
    unfolding free_log2_of
    log_ge a e (q, aligned) room small =
        let few = valid.few in
        let low = listed judy asserts memory al valid size pos le in
        let tz = ctz_greatest a log2 q (omega arith) (log2_uint32_ceil-le size) aligned in
        let mono =
          ceil_mono nfl (has_lists judy al valid) valid.few size (e - a) pos (omega arith)
            (omega arith) in
        ground (arith, tz, mono, low)

    chunk_high :
        (a s e l c v : ℕ)
        → IsMultiple log2 a
        → ChunkBounds nfl s e l c v
        → a < c + v
        → c ≤ a
        → s ≤ e
        → IsChunk nfl (has_lists judy al valid) valid.few s (e - s) l c v
        → a + size ≤ e
        → e < word32
        → log2 ≤ l
    chunk_high a s e l c v aligned b upto from ordered chunk room small =
        elim (Bool-cases (ltb l log2)) [
          | inr high ↦ ltb→le l log2 high
          | inl low ↦
              let less = ltb→lt l log2 low in
              let start : a ≡ c = elim (Bool-cases (ltb c a)) [
                | inr here ↦ omega (arith, ltb→le c a here)
                | inl later ↦
                    let step =
                      IsMultiple-apart l c a b.aligned
                        (IsMultiple-smaller l log2 a (omega arith) aligned) (ltb→lt c a later) in
                    absurd
                      (elim b.size [ inl full ↦ omega arith | inr short ↦ omega (arith, short.0) ])
              ] in
              let left : s + (e - s) - c ≡ e - a = omega arith in
              let log : l ≡ free_log2_of nfl a (e - a) =
                chunk.2
                ∙ ap (free_log2_of nfl c) left
                ∙ ap (λ n. free_log2_of nfl n (e - a)) (sym start) in
              let high = log_ge a e aligned room small in omega arith
        ]

    -- Where there is room, some chunk in a searched list is large enough.
    no-IsRoom :
        ((l : ℕ) → log2 ≤ l → l < nfl → TooSmall judy al size l) → (a : ℕ) → ¬ (IsRoom al size a)
    no-IsRoom none_fits a (aligned, free) =
        let (s, e, gap, before, behind) =
          around_index judy asserts al valid a inside
            (λ i v there p q. free (inl (i, v, there, omega arith, q))) in
        in_gap s e gap before behind (by_end e behind gap.ends)
      where
        inside : a < al.total_size
        inside = elim (Bool-cases (ltb a al.total_size)) [
          | inl near ↦ ltb→lt a al.total_size near
          | inr far ↦ let h = ltb→le a al.total_size far in absurd (free (inr (omega arith)))
        ]

        by_end :
            (e : ℕ)
            → a < e
            → (e ≡ al.total_size) ⊎ ((v : ℕ) × (blocks_of judy al e ≡ some v))
            → a + size ≤ e
        by_end e behind ends = elim (Bool-cases (ltb e (a + size))) [
          | inr fit ↦ ltb→le e (a + size) fit
          | inl short ↦
              let h = ltb→lt e (a + size) short in
              absurd (elim ends [
                | inl border ↦ free (inr (omega arith))
                | inr (v, there) ↦ free (inl (e, v, there, h, omega arith))
              ])
        ]

        in_gap :
            (s e : ℕ)
            → IsGap (blocks_of judy al) al.total_size s e
            → s ≤ a
            → a < e
            → a + size ≤ e
            → ⊥
        in_gap s e gap before behind room =
            let lists = has_lists judy al valid in
            let below = IsEnd-le (blocks_of judy al) al.total_size e valid.blocks gap.ends in
            let h = valid.small in
            let small : e < word32 = omega arith in
            let (l, c, v, there, from, upto) =
              pieces_cover nfl lists valid.few (suc (e - s)) s (e - s) a (omega arith) (omega arith)
                before (omega arith) in
            let chunk =
              pieces-IsChunk nfl lists valid.few (suc (e - s)) s (e - s) l c v (omega arith)
                there in
            let b = chunk_bounds nfl lists valid.few s e l c v gap.ordered small chunk in
            let start = b.from in
            let found : free_at judy al l c ≡ some v =
              valid.gaps s e gap l c start (omega arith) ∙ there in
            let enough : log2 ≤ l =
              chunk_high a s e l c v aligned b upto from gap.ordered chunk room small in
            let large = pow-le-pow_right {n = 2} (omega arith) {i = log2} {j = l} enough in
            let cap = fits judy asserts memory al valid size pos le in
            let little = none_fits l enough b.listed c v found in
            elim b.size [ inl full ↦ omega arith | inr short ↦ omega (arith, short.1) ]

    alloc-Allocated : Allocated al size (power2_allocator_alloc judy asserts al size)
    unfolding split_chunk
    alloc-Allocated =
        let cap = fits judy asserts memory al valid size pos le in
        let low = listed judy asserts memory al valid size pos le in
        by_search (
          take_chunk-TookFrom judy asserts memory al size (free-IsInside judy asserts al valid)
            valid.small (nfl - log2) log2 0 (omega arith) cap)
      where
        small_enough : ltb al.max_size size ≡ false
        small_enough = ground arith

        by_search :
            TookFrom judy asserts memory al size
              (free-IsInside judy asserts al valid)
              valid.small
              log2
              0
              (take_chunk judy asserts (nfl - log2) log2 size al 0)
            → Allocated al size (power2_allocator_alloc judy asserts al size)
        by_search (inl (run, none_fits)) = inl (
          alloc_step al al size minus_one 0 true small_enough run refl,
          inr (no-IsRoom none_fits),
        )
        by_search (inr (al₁, l, c, v, run, index, enough, in_lists, took)) =
            let (s, e, gap, below, chunk) = free-IsChunk judy asserts al valid l c v took.found in
            let b =
              bounds judy asserts memory al valid size pos le al₁ l c v enough took s e gap below
                chunk in
            let start = b.from in
            let inside = b.inside in
            let cap = fits judy asserts memory al valid size pos le in
            let h = valid.wide in
            let h' = valid.small in
            let large = took.large in
            let a = last_fit judy asserts log2 size c v in
            let place =
              last_fit-IsPlace judy asserts log2 size c v
                (IsMultiple-smaller log2 l c enough b.aligned) pos cap large (omega arith)
                (omega arith) in
            let from = place.from in
            let room = place.room in
            let (after, run', changed, left, clear, right) =
              split_at_lem judy asserts memory al valid size pos le al₁ l c v enough took s e gap
                below chunk a place in
            inr (
              after,
              a,
              alloc_step al al₁ size c v false small_enough run (ground arith) ∙ run',
              le,
              (
                place.aligned,
                inside_gap judy asserts al valid s e a size gap (omega arith) (omega arith) pos,
              ),
              added-IsValid judy asserts al after valid s a size e changed gap (omega arith) pos
                  (omega arith) left clear right,
              changed.sizes,
              changed.used,
            )

  -- As long as memory does not run out, `power2_allocator_alloc` of a size that is not 0 on a valid
  -- allocator fails no assertion and ends. It returns -1 and changes nothing only if the size is
  -- above the largest or there is no room: no range of that size that is free of blocks, within the
  -- total size, and aligned to the size rounded up to a power of two. Else it returns the start of
  -- such a range, which is one more block in use, and leaves a valid allocator of the same sizes
  -- with the other blocks as before.
  pub power2_allocator_alloc-Allocated :
      HasMemory judy
      → (al : Allocator judy) (size : ℕ) → IsValid judy al
      → 0 < size
      → Allocated al size (power2_allocator_alloc judy asserts al size)
  power2_allocator_alloc-Allocated memory al size valid pos =
      elim (Bool-cases (ltb al.max_size size)) [
        | inl over ↦
            let large = ltb→lt al.max_size size over in
            inl (alloc_too_large al size large, inl large)
        | inr under ↦ alloc-Allocated memory al valid size pos (ltb→le al.max_size size under)
      ]
