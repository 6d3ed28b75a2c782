-- ===== src/Power2/Passes.antt =====
-- `power2_allocator_assert` of src/power2_allocator/power2_allocator.c as a whole on a valid allocator.
use target_utils.Base.{
  ℕ, zero, suc, ◌+◌, ◌-◌, ◌*◌, ◌≤◌, ◌<◌, ◌≡◌, refl, sym, ap, ◌∙◌, arith, word32, word64, minus_one,
  Bool, true, Option, none, some, u32, sub32, add64, ◌==◌, Bool-cases, inl, inr,
}
use target_utils.Base.Run.{Run, ok, ◌>>=◌, ◌>>◌, Returns, bf_sys_assert, bf_sys_assert_ok}
use target_utils.Judy.One.{Judy1, HasMemory, IsFirst}
use target_utils.Judy.Many.{JudyL, Pointer, pjerr, null, slot}
use target_utils.Power2.{Allocator}
use target_utils.Power2.Valid.{IsValid, IsStart, IsGap, blocks_of}
use target_utils.Power2.Check.{
  power2_allocator_free_list_assert, power2_allocator_free_list_assert-IsGap,
}
use target_utils.Power2.SelfCheck.{
  is_none, mark_inuse, check_gaps, check_last, check_marked, power2_allocator_assert,
}
use target_utils.Power2.Marks.{Covers, Marks}
use target_utils.Power2.Once.{chunk_sizes}
use target_utils.Power2.History.{Reached, Reached-IsSound}
use target_utils.Power2.Verified.{
  CoveredUnder, nothing_marked, mark_lists-Marks, mark_inuse-Marks, check_overlap-ok,
}

module _ (judy : JudyL) (judy1 : Judy1) (asserts : Bool) (memory : HasMemory judy1)
    (al : Allocator judy) (valid : IsValid judy al) where
  open judy1 use {Arr, empty, test, j1f, j1f-IsFirst}

  abbrev used : ℕ → Option ℕ
  used = blocks_of judy al

  -- The last gap begins here.
  abbrev IsRest : ℕ → Type 0
  IsRest s = IsStart used s × (s ≤ al.total_size) × ((k : ℕ) → s ≤ k → k < word64 → used k ≡ none)

  -- Up to `s` the gaps were checked, and the blocks left begin at `from` or later.
  pub record IsReached (s from : ℕ) : Type 0 where
    pub starts : IsStart used s
    pub inside : s ≤ al.total_size
    pub walked : from ≤ s
    pub ahead : (c v : ℕ) → used c ≡ some v → from ≤ c → s ≤ c

  next_gap :
      (s from j v : ℕ)
      → IsReached s from
      → (from ≤ j) × (j < word64) × (used j ≡ some v) × ((k : ℕ) → from ≤ k → k < j → used k ≡ none)
      → IsGap used al.total_size s j × IsReached (j + v) (suc j)
  next_gap s from j v reached (above, word, there, between) =
      let b = valid.blocks.within j v there in
      let walked = reached.walked in
      let ahead = reached.ahead j v there above in
      (
        record {
          starts = reached.starts;
          ends = inr (v, there);
          ordered = ahead;
          unused = λ k p q. between k (omega arith) q;
        },
        record {
          starts = inr (j, v, there, refl);
          inside = b.1;
          walked = omega arith;
          ahead = λ c w here later. valid.blocks.apart j v c w there here (omega arith);
        },
      )

  gap_passes :
      (s e : ℕ)
      → IsGap used al.total_size s e
      → e ≤ al.total_size
      → power2_allocator_free_list_assert judy asserts al s (sub32 (u32 e) s) ≡ ok tt
  gap_passes s e gap below =
      let small = valid.small in
      let ordered = gap.ordered in
      let size : sub32 (u32 e) s ≡ e - s = omega arith in
      ap (power2_allocator_free_list_assert judy asserts al s) size
      ∙ power2_allocator_free_list_assert-IsGap judy asserts al s e valid gap

  check_gaps-IsRest :
      (fuel s from : ℕ) (p : Pointer)
      → target_utils.Judy.Many.IsFirst used from p
      → IsReached s from
      → from ≤ al.total_size
      → suc al.total_size < from + fuel
      → Returns (check_gaps judy judy1 asserts fuel al s p) IsRest
  unfolding check_gaps
  check_gaps-IsRest zero s from p first reached le enough = absurd (omega arith)
  check_gaps-IsRest (suc fuel) s from pjerr first reached le enough = absurd first
  check_gaps-IsRest (suc fuel) s from null first reached le enough =
      let walked = reached.walked in
      (s, refl, (reached.starts, reached.inside, λ k p q. first k (omega arith) q))
  check_gaps-IsRest (suc fuel) s from (slot j v) first reached le enough =
      let (gap, reached') = next_gap s from j v reached first in
      let inside = valid.blocks.within j v first.2 in
      let small = valid.small in
      let end : u32 (add64 j v) ≡ j + v = omega arith in
      let (r, run, rest) =
        check_gaps-IsRest fuel (j + v) (suc j) (judy.jln al.inuse_list j)
          (judy.jln-IsFirst al.inuse_list j) reached' (omega arith) (omega arith) in
      (
        r,
        ap
              (λ m. do
                m
                check_gaps judy judy1 asserts fuel al (u32 (add64 j v)) (judy.jln al.inuse_list j))
              (gap_passes s j gap (omega arith))
            ∙ ap (λ n. check_gaps judy judy1 asserts fuel al n (judy.jln al.inuse_list j)) end
            ∙ run,
        rest,
      )

  check_last-ok : (s : ℕ) → IsRest s → check_last judy judy1 asserts al s ≡ ok tt
  check_last-ok s (starts, inside, unused) = elim (Bool-cases (s == al.total_size)) [
    | inl done ↦ rw (done, check_last) refl
    | inr more ↦
        let small = valid.small in
        let word : u32 al.total_size ≡ al.total_size = omega arith in
        let gap : IsGap used al.total_size s al.total_size = record {
          starts = starts;
          ends = inl refl;
          ordered = inside;
          unused = λ k p q. unused k p (omega arith);
        } in
        rw (more, check_last)
          (ap (λ n. power2_allocator_free_list_assert judy asserts al s (sub32 n s)) (sym word)
            ∙ gap_passes s al.total_size gap (omega arith))
  ]

  -- No index is marked from `total` on.
  none_beyond :
      (marked : Arr) (P : ℕ → Type 0)
      → Marks judy1 marked P
      → ((k : ℕ) → P k → k < al.total_size)
      → bf_sys_assert asserts (is_none (j1f marked al.total_size)) ≡ ok tt
  none_beyond marked P marks inside =
      bf_sys_assert_ok asserts (is_none (j1f marked al.total_size))
        (by_answer (j1f marked al.total_size) (j1f-IsFirst marked al.total_size))
    where
      by_answer : (o : Option ℕ) → IsFirst (test marked) true al.total_size o → is_none o ≡ true
      by_answer none h = refl
      by_answer (some j) (above, word, on, between) =
          let below = inside j (marks.0 j on) in absurd (omega arith)

  used_inside : (k : ℕ) → Covers used k → k < al.total_size
  used_inside k (c, v, there, p, q) = let b = valid.blocks.within c v there in omega arith

  free_inside :
      (k : ℕ)
      → CoveredUnder judy judy1 asserts memory al valid al.no_free_lists k
      → k < al.total_size
  free_inside k (l, listed, (c, v, there, p, q)) =
      let b = chunk_sizes judy asserts al valid l c v there in let inside = b.1 in omega arith

  abbrev ends_ok : Arr → Arr → Run (Unit {0})
  ends_ok free_array inuse_array = do
    bf_sys_assert asserts (is_none (j1f free_array al.total_size))
    bf_sys_assert asserts (is_none (j1f inuse_array al.total_size))

  abbrev gaps_ok : Arr → Arr → Run (Unit {0})
  gaps_ok free_array inuse_array = do
    free_index ←
        check_gaps judy judy1 asserts (suc (suc al.total_size)) al 0 (judy.jlf al.inuse_list 0)
    check_last judy judy1 asserts al free_index
    ends_ok free_array inuse_array

  check_marked-ok :
      (free_array inuse_array : Arr)
      → Marks judy1 free_array (CoveredUnder judy judy1 asserts memory al valid al.no_free_lists)
      → Marks judy1 inuse_array (Covers used)
      → check_marked judy judy1 asserts al free_array inuse_array ≡ ok tt
  check_marked-ok free_array inuse_array frees blocks =
      let (s, run, rest) =
        check_gaps-IsRest (suc (suc al.total_size)) 0 0 (judy.jlf al.inuse_list 0)
          (judy.jlf-IsFirst al.inuse_list 0)
          (record {
            starts = inl refl;
            inside = omega arith;
            walked = omega arith;
            ahead = λ c v there later. later;
          })
          (omega arith) (omega arith) in
      ap (λ r. do r; gaps_ok free_array inuse_array)
        (check_overlap-ok judy judy1 asserts memory al valid free_array inuse_array frees blocks
          al.total_size 0 (omega arith))
      ∙ ap
          (λ m. do
            free_index ← m
            check_last judy judy1 asserts al free_index
            ends_ok free_array inuse_array)
          run
      ∙ ap (λ r. do r; ends_ok free_array inuse_array) (check_last-ok s rest)
      ∙ ap (λ r. do r; bf_sys_assert asserts (is_none (j1f inuse_array al.total_size)))
          (none_beyond free_array (CoveredUnder judy judy1 asserts memory al valid al.no_free_lists)
            frees free_inside)
      ∙ none_beyond inuse_array (Covers used) blocks used_inside

  abbrev blocks_then : Arr → Run (Unit {0})
  blocks_then free_array = do
    inuse_array ←
        mark_inuse judy judy1 asserts (suc (suc al.total_size)) al.inuse_list empty
          (judy.jlf al.inuse_list 0)
    check_marked judy judy1 asserts al free_array inuse_array

  passes : power2_allocator_assert judy judy1 asserts (some al) ≡ ok tt
  unfolding power2_allocator_assert
  passes =
      let (free_array, run, frees) =
        mark_lists-Marks judy judy1 asserts memory al valid al.no_free_lists 0 empty (omega arith) (
          nothing_marked judy judy1 asserts memory al valid
            (CoveredUnder judy judy1 asserts memory al valid 0) no_list) in
      let (inuse_array, run', blocks) = mark_inuse-Marks judy judy1 asserts memory al valid in
      ap (λ m. do free_array ← m; blocks_then free_array) run
      ∙ ap (λ m. do inuse_array ← m; check_marked judy judy1 asserts al free_array inuse_array) run'
      ∙ check_marked-ok free_array inuse_array frees blocks
    where
      no_list : (k : ℕ) → CoveredUnder judy judy1 asserts memory al valid 0 k → ⊥
      no_list k (l, under, covers) = absurd (omega arith)

-- As long as memory for its marks does not run out, `power2_allocator_assert` of a valid allocator
-- fails none of its assertions and ends: each index is marked exactly once, as free or as in use,
-- no mark is at or beyond the total size, and the free lists hold the chunks of the gaps.
pub power2_allocator_assert-IsValid :
    (judy : JudyL) (judy1 : Judy1) (asserts : Bool)
    → HasMemory judy1
    → (al : Allocator judy) → IsValid judy al
    → power2_allocator_assert judy judy1 asserts (some al) ≡ ok tt
power2_allocator_assert-IsValid judy judy1 asserts memory al valid =
    passes judy judy1 asserts memory al valid

-- As long as memory does not run out, the self-check `power2_allocator_assert` passes and ends on
-- an allocator that `power2_allocator_create` made for a count of blocks of a size, where the total
-- is below 2^32 - 1 and one more block would not exceed 2^32, after any sequence of calls of
-- `power2_allocator_alloc`, `power2_allocator_release` and `power2_allocator_reserve`, with sizes
-- that are not 0 and ranges to reserve that end below 2^32.
pub power2_allocator_assert-Reached :
    (judy : JudyL) (judy1 : Judy1) (asserts : Bool)
    → target_utils.Judy.Many.HasMemory judy
    → HasMemory judy1
    → (size count : ℕ) → size < word32
    → size * count < minus_one
    → size * count + size ≤ word32
    → (al : Allocator judy) → Reached judy asserts size count al
    → power2_allocator_assert judy judy1 asserts (some al) ≡ ok tt
power2_allocator_assert-Reached judy judy1 asserts memory memory1 size count small below within al
      reached =
    power2_allocator_assert-IsValid judy judy1 asserts memory1 al
      (Reached-IsSound judy asserts memory size count small below within al reached).0
