-- ===== src/Power2/Verified.antt =====
-- What `power2_allocator_assert` of src/power2_allocator/power2_allocator.c marks on a valid allocator.
use target_utils.Base.{
  ℕ, zero, suc, ◌+◌, ◌≤◌, ◌<◌, ◌≡◌, refl, sym, ap, ◌∙◌, arith, Bool, true, false, not, Option, some,
  ltb, ltb→lt, ltb→le, if◌then◌else◌, Bool-cases, ◌⊎◌, inl, inr,
}
use target_utils.Base.Run.{ok, ◌>>=◌, ◌>>◌, Returns, bf_sys_assert_ok}
use target_utils.Judy.One.{Judy1, HasMemory}
use target_utils.Judy.Many.{JudyL}
use target_utils.Power2.{Allocator}
use target_utils.Power2.Insert.{free_at}
use target_utils.Power2.Valid.{IsValid, blocks_of}
use target_utils.Power2.SelfCheck.{mark_lists, mark_inuse, check_overlap}
use target_utils.Power2.Marks.{Covers, CoversBelow, Marks}
use target_utils.Power2.MarkLists.{mark_list-MarksAll, mark_inuse-MarksAll}
use target_utils.Power2.Found.{IsFree}
use target_utils.Power2.Once.{
  chunk_once, chunk_sizes, lists-IsListed, used-IsListed, CoveredFree, free_or_used, unused_covered,
}

module _ (judy : JudyL) (judy1 : Judy1) (asserts : Bool) (memory : HasMemory judy1)
    (al : Allocator judy) (valid : IsValid judy al) where
  open judy1 use {Arr, empty, test, test-empty, j1f, j1f-IsFirst}

  abbrev f : ℕ → ℕ → Option ℕ
  f = free_at judy al

  abbrev used : ℕ → Option ℕ
  used = blocks_of judy al

  -- A chunk of a list below `l` covers an index.
  abbrev pub CoveredUnder : ℕ → ℕ → Type 0
  CoveredUnder l k = (l' : ℕ) × (l' < l) × Covers (f l') k

  pub nothing_marked : (P : ℕ → Type 0) → ((k : ℕ) → P k → ⊥) → Marks judy1 empty P
  nothing_marked P impossible =
      (λ k t. absurd (let e = sym (test-empty k) ∙ t in cc), λ k p. absurd (impossible k p))

  fresh_list : (l c v k : ℕ) → f l c ≡ some v → c ≤ k → k < c + v → CoveredUnder l k → ⊥
  fresh_list l c v k here p q (l', under, (d, w, there, p', q')) =
      let same = (chunk_once judy asserts al valid l c v l' d w k here there p q p' q').0 in
      absurd (omega arith)

  -- One more list is marked.
  list_marked :
      (l : ℕ) (r : Arr)
      → Marks judy1 r (λ k. CoveredUnder l k ⊎ Covers (f l) k)
      → Marks judy1 r (CoveredUnder (l + 1))
  list_marked l r (sound, complete) = (
    λ k t. elim (sound k t) [
      | inl (l', under, covers) ↦ (l', omega arith, covers)
      | inr covers ↦ (l, omega arith, covers)
    ],
    λ k covered. by_list k covered (Bool-cases (ltb covered.0 l)),
  )
    where
      by_list :
          (k : ℕ) (covered : CoveredUnder (l + 1) k)
          → (ltb covered.0 l ≡ true) ⊎ (ltb covered.0 l ≡ false)
          → test r k ≡ true
      by_list k (l', under, covers) (inl before) = complete k (inl (l', ltb→lt l' l before, covers))
      by_list k (l', under, (c, v, there, p, q)) (inr level) =
          let same : l' ≡ l = omega (arith, ltb→le l' l level) in
          complete k (inr (c, v, ap (λ n. f n c) (sym same) ∙ there, p, q))

  pub mark_lists-Marks :
      (n l : ℕ) (marked : Arr)
      → l + n ≡ al.no_free_lists
      → Marks judy1 marked (CoveredUnder l)
      → Returns
          (mark_lists judy judy1 asserts n al l marked)
          (λ r. Marks judy1 r (CoveredUnder al.no_free_lists))
  unfolding mark_lists
  mark_lists-Marks zero l marked rounds (sound, complete) =
      let same : l ≡ al.no_free_lists = omega arith in
      (
        marked,
        refl,
        (
          λ k t. let (l', under, covers) = sound k t in (l', omega arith, covers),
          λ k covered. let (l', under, covers) = covered in complete k (l', omega arith, covers),
        ),
      )
  mark_lists-Marks (suc n) l marked rounds marks =
      let list = al.free_lists l in
      let small = valid.small in
      let (r, run, all) =
        mark_list-MarksAll judy1 judy list al.total_size small (CoveredUnder l)
          (lists-IsListed judy asserts al valid l) (fresh_list l) asserts memory l
          (λ c v here. let b = chunk_sizes judy asserts al valid l c v here in (b.3, b.4))
          (suc (suc al.total_size)) 0 marked (judy.jlf list 0) (judy.jlf-IsFirst list 0)
          (omega arith) (omega arith) (start l marked marks) in
      let (r', run', done) = mark_lists-Marks n (l + 1) r (omega arith) (list_marked l r all) in
      (
        r',
        ap (λ m. do marked' ← m; mark_lists judy judy1 asserts n al (l + 1) marked') run ∙ run',
        done,
      )
    where
      start :
          (l : ℕ) (marked : Arr)
          → Marks judy1 marked (CoveredUnder l)
          → Marks judy1 marked (λ k. CoveredUnder l k ⊎ CoversBelow (f l) 0 k)
      start l marked (sound, complete) = (
        λ k t. inl (sound k t),
        λ k covered. elim covered [
          | inl old ↦ complete k old
          | inr (c, v, there, early, p, q) ↦ absurd (omega arith)
        ],
      )

  pub mark_inuse-Marks :
      Returns
        (mark_inuse judy judy1 asserts
          (suc (suc al.total_size))
          al.inuse_list
          empty
          (judy.jlf al.inuse_list 0))
        (λ r. Marks judy1 r (Covers used))
  mark_inuse-Marks =
      let list = al.inuse_list in
      let small = valid.small in
      let (r, run, (sound, complete)) =
        mark_inuse-MarksAll judy1 judy list al.total_size small (λ k. ⊥)
          (used-IsListed judy asserts al valid) (λ c v k here p q old. old) asserts memory
          (suc (suc al.total_size)) 0 empty (judy.jlf list 0) (judy.jlf-IsFirst list 0)
          (omega arith) (omega arith) (nothing_marked (λ k. ⊥ ⊎ CoversBelow used 0 k) none_below) in
      (
        r,
        run,
        (
          λ k t. elim (sound k t) [ inl old ↦ absurd old | inr covers ↦ covers ],
          λ k covers. complete k (inr covers),
        ),
      )
    where
      none_below : (k : ℕ) → ⊥ ⊎ CoversBelow used 0 k → ⊥
      none_below k (inl old) = old
      none_below k (inr (c, v, there, early, p, q)) = absurd (omega arith)

  -- Each index is marked in one of the two arrays.
  module _ (free_array inuse_array : Arr)
      (frees : Marks judy1 free_array (CoveredUnder al.no_free_lists))
      (blocks : Marks judy1 inuse_array (Covers used)) where
    one_mark :
        (k : ℕ)
        → k < al.total_size
        → (if test free_array k then not (test inuse_array k) else test inuse_array k) ≡ true
    one_mark k below =
        by_marks (test free_array k) (test inuse_array k) (frees.0 k) (frees.1 k) (blocks.0 k)
          (blocks.1 k)
      where
        by_marks :
            (t u : Bool)
            → (t ≡ true → CoveredFree judy asserts al valid k)
            → (CoveredFree judy asserts al valid k → t ≡ true)
            → (u ≡ true → Covers used k)
            → (Covers used k → u ≡ true)
            → (if t then not u else u) ≡ true
        by_marks true true p p' q q' =
            absurd (free_or_used judy asserts al valid k (p refl) (q refl))
        by_marks true false p p' q q' = refl
        by_marks false true p p' q q' = refl
        by_marks false false p p' q q' =
            let free : IsFree judy asserts al valid k =
              λ i v there from upto. absurd (let e = q' (i, v, there, from, upto) in cc) in
            p' (unused_covered judy asserts al valid k below free)

    pub check_overlap-ok :
        (n i : ℕ)
        → i + n ≡ al.total_size
        → check_overlap judy judy1 asserts n i free_array inuse_array ≡ ok tt
    unfolding check_overlap
    check_overlap-ok zero i rounds = refl
    check_overlap-ok (suc n) i rounds =
        ap (λ r. do r; check_overlap judy judy1 asserts n (i + 1) free_array inuse_array)
          (bf_sys_assert_ok asserts
            (if test free_array i then not (test inuse_array i) else test inuse_array i)
            (one_mark i (omega arith)))
        ∙ check_overlap-ok n (i + 1) (omega arith)
