-- ===== src/Power2/Release.antt =====
-- `power2_allocator_release` of src/power2_allocator/power2_allocator.c as a whole.
use target_utils.Base.{
  ℕ, ◌+◌, ◌≤◌, ◌<◌, ◌≡◌, refl, sym, ap, ◌∙◌, arith, minus_one, word32, Bool, true, false, not,
  Option, none, some, u32, ◌==◌, Option-cases, ◌⊎◌, inl, inr,
}
use target_utils.Base.Run.{Run, ok, ◌>>=◌, bf_sys_assert_ok}
use target_utils.Judy.Many.{JudyL, HasMemory}
use target_utils.Power2.{
  Allocator, power2_allocator_get_index_size, power2_allocator_get_next_inuse_block,
  power2_allocator_get_prev_inuse_block,
}
use target_utils.Power2.Calls.{start_of, end_of, release_block, power2_allocator_release}
use target_utils.Power2.Pieces.{some_ne_none}
use target_utils.Power2.Ranges.{SameSizes, release_block_lem}
use target_utils.Power2.Keep.{dropped-IsValid}
use target_utils.Power2.Valid.{has_lists, IsEnd, IsGap, IsValid, blocks_of}
use target_utils.Power2.Neighbours.{start_of_lem, end_of_lem}
use target_utils.Power2.Freed.{drop_block}

module _ (judy : JudyL) (asserts : Bool) where
  open judy use {jlg_lem}

  -- A release of no block changes nothing and returns -1; a release of a block returns 0 and takes
  -- that block, and no other, out of use in a valid allocator of the same sizes.
  abbrev pub Released : Allocator judy → ℕ → Option ℕ → Run (Allocator judy × ℕ) → Type 0
  Released al i none run = run ≡ ok (al, minus_one)
  Released al i (some size) run =
      (al' : Allocator judy) × (run ≡ ok (al', 0))
      × IsValid judy al'
      × SameSizes judy asserts al al'
      × ((k : ℕ) → blocks_of judy al' k ≡ drop_block (blocks_of judy al) i k)

  pub size_of_used :
      (al : Allocator judy) (i size : ℕ)
      → blocks_of judy al i ≡ some size
      → 0 < size
      → size < word32
      → power2_allocator_get_index_size judy asserts al i ≡ ok size
  unfolding power2_allocator_get_index_size
  size_of_used al i size there pos small =
      let word : u32 size ≡ size = omega arith in
      let nonzero : not (size == 0) ≡ true = ground arith in
      rw (jlg_lem al.inuse_list i, there, bf_sys_assert_ok asserts (not (size == 0)) nonzero, word)
        refl

  pub size_of_unused :
      (al : Allocator judy) (i : ℕ)
      → blocks_of judy al i ≡ none
      → power2_allocator_get_index_size judy asserts al i ≡ ok minus_one
  unfolding power2_allocator_get_index_size
  size_of_unused al i gone = rw (jlg_lem al.inuse_list i, gone) refl

  release_unused :
      (al : Allocator judy) (i : ℕ)
      → blocks_of judy al i ≡ none
      → power2_allocator_release judy asserts al i ≡ ok (al, minus_one)
  unfolding power2_allocator_release
  release_unused al i gone = rw (size_of_unused al i gone) refl

  release_used :
      (al : Allocator judy) (i size : ℕ)
      → blocks_of judy al i ≡ some size
      → 0 < size
      → size < minus_one
      → power2_allocator_release judy asserts al i
        ≡ release_block judy asserts al i size
            (start_of judy asserts (power2_allocator_get_prev_inuse_block judy al i))
            (end_of judy asserts al.total_size (power2_allocator_get_next_inuse_block judy al i))
  unfolding power2_allocator_release
  release_used al i size there pos small =
      let found : (size == minus_one) ≡ false = ground arith in
      let block = λ (n : ℕ).
        release_block judy asserts al i n
          (start_of judy asserts (power2_allocator_get_prev_inuse_block judy al i))
          (end_of judy asserts al.total_size (power2_allocator_get_next_inuse_block judy al i)) in
      ap (λ r. do n ← r; elim (n == minus_one) [ true ↦ ok (al, minus_one) | false ↦ block n ])
        (size_of_used al i size there pos (omega arith))
      ∙ ap (λ c. elim c [ true ↦ ok (al, minus_one) | false ↦ block size ]) found

  module _ (memory : HasMemory judy) (al : Allocator judy) (valid : IsValid judy al) (i size : ℕ)
      (there : blocks_of judy al i ≡ some size) where
    abbrev s : ℕ
    s = start_of judy asserts (power2_allocator_get_prev_inuse_block judy al i)

    abbrev e : ℕ
    e = end_of judy asserts al.total_size (power2_allocator_get_next_inuse_block judy al i)

    sized : (0 < size) × (i + size ≤ al.total_size)
    sized = valid.blocks.within i size there

    left : IsGap (blocks_of judy al) al.total_size s i
    left =
        let a = start_of_lem judy asserts al valid i in
        record {
          starts = a.0;
          ends = inr (size, there);
          ordered = elim a.2 [
            | inl zero_start ↦ omega arith
            | inr (p, v, before, here, ends) ↦
                let b = valid.blocks.apart p v i size here there before in omega arith
          ];
          unused = a.1;
        }

    right : IsGap (blocks_of judy al) al.total_size (i + size) e
    right =
        let a = end_of_lem judy asserts al valid i in
        record {
          starts = inr (i, size, there, refl);
          ends = a.0;
          ordered = behind a.0 a.2;
          unused = λ k p q. a.3 k (omega (arith, sized.0)) q;
        }
      where
        behind :
            IsEnd (blocks_of judy al) al.total_size e → (i < e) ⊎ (e ≡ al.total_size) → i + size ≤ e
        behind (inl border) later = omega (arith, sized.1)
        behind (inr (v, here)) (inl later) = valid.blocks.apart i size e v there here later
        behind (inr (v, here)) (inr border) = omega (arith, sized.1)

    release_used-Released : Released al i (some size) (power2_allocator_release judy asserts al i)
    release_used-Released =
        let small = valid.small in
        let end = end_of_lem judy asserts al valid i in
        let (after, run, c, merged) =
          release_block_lem judy asserts memory al s i size e (has_lists judy al valid) valid.few
            left.ordered right.ordered (omega (arith, end.1))
            (λ gone. some_ne_none (sym there ∙ gone)) (valid.gaps s i left)
            (valid.gaps (i + size) e right) (valid.busy i size there) in
        (
          after,
          release_used al i size there sized.0 (omega (arith, sized.1)) ∙ run,
          dropped-IsValid judy asserts al after valid s i size e c there left right merged,
          c.sizes,
          c.used,
        )

  -- As long as memory does not run out, `power2_allocator_release` on a valid allocator returns -1
  -- and changes nothing where no block begins at the index; else it fails no assertion, ends,
  -- returns 0, takes that block and no other out of use, and leaves a valid allocator: the blocks
  -- in use lie apart and below the total size, and the free lists hold the chunks of each gap
  -- between blocks, and no chunk begins inside a block.
  pub power2_allocator_release-Released :
      HasMemory judy
      → (al : Allocator judy) (i : ℕ) → IsValid judy al
      → Released al i (blocks_of judy al i) (power2_allocator_release judy asserts al i)
  power2_allocator_release-Released memory al i valid = elim (Option-cases (blocks_of judy al i)) [
    | inl gone ↦ rw gone (release_unused al i gone)
    | inr (size, there) ↦ rw there (release_used-Released memory al valid i size there)
  ]
