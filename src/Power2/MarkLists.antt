-- ===== src/Power2/MarkLists.antt =====
-- The loops of `power2_allocator_assert` in src/power2_allocator/power2_allocator.c over a list: its
-- blocks are marked after them.
use target_utils.Base.{
  ℕ, zero, suc, ◌+◌, ◌/◌, ◌^◌, ◌≤◌, ◌<◌, ◌≡◌, refl, sym, ap, ◌∙◌, arith, word64, minus_one, Bool,
  Option, none, some, u32, add64, ltb, leb, lt→ltb, ltb→lt, ltb→le, le→leb, Bool-cases, ◌⊎◌, inl,
  inr,
}
use target_utils.Base.Run.{◌>>=◌, ◌>>◌, Returns, bf_sys_assert, bf_sys_assert_ok}
use target_utils.Judy.One.{Judy1, HasMemory}
use target_utils.Judy.Many.{JudyL, Pointer, pjerr, null, slot, IsFirst}
use target_utils.Power2.Pieces.{some_ne_none}
use target_utils.Power2.SelfCheck.{mark_range, mark_list, mark_inuse}
use target_utils.Power2.Marks.{Covers, CoversBelow, IsListed, Marks, block_marked}

module _ (judy1 : Judy1) where
  open judy1 use {Arr}

  -- The lists: `Old` was marked before, and no entry covers an index of it.
  module _ (judy : JudyL) (list : judy.Arr) (total : ℕ) (small : total < minus_one)
      (Old : ℕ → Type 0) (listed : IsListed (judy.lookup list) total)
      (fresh : (c v k : ℕ) → judy.lookup list c ≡ some v → c ≤ k → k < c + v → Old k → ⊥) where
    abbrev f : ℕ → Option ℕ
    f = judy.lookup list

    -- The entries below `from` are marked.
    abbrev pub MarksBelow : Arr → ℕ → Type 0
    MarksBelow marked from = Marks judy1 marked (λ k. Old k ⊎ CoversBelow f from k)

    abbrev pub MarksAll : Arr → Type 0
    MarksAll marked = Marks judy1 marked (λ k. Old k ⊎ Covers f k)

    pub all_marked :
        (marked : Arr) (from : ℕ)
        → ((k : ℕ) → from ≤ k → k < word64 → f k ≡ none)
        → MarksBelow marked from
        → MarksAll marked
    all_marked marked from none_left (sound, complete) = (
      λ k t. elim (sound k t) [
        | inl old ↦ inl old
        | inr (c, v, there, early, p, q) ↦ inr (c, v, there, p, q)
      ],
      λ k covered. elim covered [
        | inl old ↦ complete k (inl old)
        | inr (c, v, there, p, q) ↦ elim (Bool-cases (ltb c from)) [
          | inl early ↦ complete k (inr (c, v, there, ltb→lt c from early, p, q))
          | inr late ↦
              let b = listed.within c v there in
              absurd (some_ne_none (sym there ∙ none_left c (ltb→le c from late) (omega arith)))
        ]
      ],
    )

    pub block_clear :
        (from j v : ℕ)
        → from ≤ j
        → f j ≡ some v
        → (k : ℕ) → j ≤ k
        → k < j + v
        → Old k ⊎ CoversBelow f from k
        → ⊥
    block_clear from j v above there k p q (inl old) = fresh j v k there p q old
    block_clear from j v above there k p q (inr (c, w, here, early, from_c, upto)) =
        let a = listed.apart c w j v here there (omega arith) in absurd (omega arith)

    pub next_marked :
        (r : Arr) (from j v : ℕ)
        → IsFirst f from (slot j v)
        → Marks judy1 r (λ k. (Old k ⊎ CoversBelow f from k) ⊎ ((j ≤ k) × (k < j + v)))
        → MarksBelow r (suc j)
    next_marked r from j v (above, word, there, between) (sound, complete) = (
      λ k t. elim (sound k t) [
        | inl (inl old) ↦ inl old
        | inl (inr (c, w, here, early, p, q)) ↦ inr (c, w, here, omega arith, p, q)
        | inr (p, q) ↦ inr (j, v, there, omega arith, p, q)
      ],
      λ k covered. elim covered [
        | inl old ↦ complete k (inl (inl old))
        | inr (c, w, here, early, p, q) ↦ elim (Bool-cases (ltb c from)) [
          | inl before ↦ complete k (inl (inr (c, w, here, ltb→lt c from before, p, q)))
          | inr behind ↦ elim (Bool-cases (ltb c j)) [
            | inl skipped ↦
                absurd
                  (some_ne_none (sym here ∙ between c (ltb→le c from behind) (ltb→lt c j skipped)))
            | inr level ↦
                let same : c ≡ j = omega (arith, ltb→le c j level) in
                let size : w ≡ v = some_same w v (sym here ∙ ap f same ∙ there) in
                complete k (inr (omega arith, omega arith))
          ]
        ]
      ],
    )
      where
        some_same : (w v : ℕ) → some w ≡ some v → w ≡ v
        some_same w v e = cc

    module _ (asserts : Bool) (memory : HasMemory judy1) where
      pub mark_inuse-MarksAll :
          (fuel from : ℕ) (marked : Arr) (p : Pointer)
          → IsFirst f from p
          → from ≤ total
          → suc total < from + fuel
          → MarksBelow marked from
          → Returns (mark_inuse judy judy1 asserts fuel list marked p) MarksAll
      unfolding mark_inuse
      mark_inuse-MarksAll zero from marked p first le enough marks = absurd (omega arith)
      mark_inuse-MarksAll (suc fuel) from marked pjerr first le enough marks = absurd first
      mark_inuse-MarksAll (suc fuel) from marked null first le enough marks =
          (marked, refl, all_marked marked from first marks)
      mark_inuse-MarksAll (suc fuel) from marked (slot j v) first le enough marks =
          let there = first.2 in
          let b = listed.within j v there in
          let (r, run, marks') =
            block_marked judy1 asserts memory judy (λ k. Old k ⊎ CoversBelow f from k) marked j v
              (add64 j v) marks (omega arith) (omega arith) (block_clear from j v first.0 there) in
          let (r', run', all) =
            mark_inuse-MarksAll fuel (suc j) r (judy.jln list j) (judy.jln-IsFirst list j)
              (omega arith) (omega arith) (next_marked r from j v first marks') in
          (
            r',
            ap
                  (λ m. do
                    marked' ← m
                    mark_inuse judy judy1 asserts fuel list marked' (judy.jln list j))
                  run
                ∙ run',
            all,
          )

      -- The chunks of a free list have sizes that pass the two assertions.
      pub mark_list-MarksAll :
          (log2 : ℕ)
          → ((c v : ℕ) → f c ≡ some v → (v ≤ 2 ^ log2) × (2 ^ log2 / 2 < v))
          → (fuel from : ℕ) (marked : Arr) (p : Pointer) → IsFirst f from p
          → from ≤ total
          → suc total < from + fuel
          → MarksBelow marked from
          → Returns (mark_list judy judy1 asserts fuel log2 list marked p) MarksAll
      unfolding mark_list
      mark_list-MarksAll log2 sizes zero from marked p first le enough marks = absurd (omega arith)
      mark_list-MarksAll log2 sizes (suc fuel) from marked pjerr first le enough marks =
          absurd first
      mark_list-MarksAll log2 sizes (suc fuel) from marked null first le enough marks =
          (marked, refl, all_marked marked from first marks)
      mark_list-MarksAll log2 sizes (suc fuel) from marked (slot j v) first le enough marks =
          let there = first.2 in
          let b = listed.within j v there in
          let (fits, fills) = sizes j v there in
          let size : u32 v ≡ v = omega arith in
          let (r, run, marks') =
            block_marked judy1 asserts memory judy (λ k. Old k ⊎ CoversBelow f from k) marked j v
              (add64 j v) marks (omega arith) (omega arith) (block_clear from j v first.0 there) in
          let (r', run', all) =
            mark_list-MarksAll log2 sizes fuel (suc j) r (judy.jln list j) (judy.jln-IsFirst list j)
              (omega arith) (omega arith) (next_marked r from j v first marks') in
          (
            r',
            ap
                  (λ n. do
                    bf_sys_assert asserts (leb n (2 ^ log2))
                    bf_sys_assert asserts (ltb (2 ^ log2 / 2) n)
                    marked' ← mark_range judy judy1 asserts (suc n) marked (u32 j) (add64 j n)
                    mark_list judy judy1 asserts fuel log2 list marked' (judy.jln list j))
                  size
                ∙ rw
                    (
                      bf_sys_assert_ok asserts (leb v (2 ^ log2)) (le→leb v (2 ^ log2) fits),
                      bf_sys_assert_ok asserts (ltb (2 ^ log2 / 2) v)
                          (lt→ltb (2 ^ log2 / 2) v fills),
                    )
                    (ap
                      (λ m. do
                        marked' ← m
                        mark_list judy judy1 asserts fuel log2 list marked' (judy.jln list j))
                      run)
                ∙ run',
            all,
          )
