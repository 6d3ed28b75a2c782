-- ===== src/Power2/Marks.antt =====
-- The loops of `power2_allocator_assert` in src/power2_allocator/power2_allocator.c that mark indexes:
-- what is marked after them.
use target_utils.Base.{
  ℕ, zero, suc, ◌+◌, ◌≤◌, ◌<◌, ◌≡◌, ◌≢◌, refl, sym, ap, ◌∙◌, arith, word32, Bool, true, false, ◌&&◌,
  Option, some, u32, add32, ltb, leb, lt→ltb, ltb→lt, ltb→le, ◌==◌, if◌then◌else◌, Bool-cases, ◌⊎◌,
  inl, inr,
}
use target_utils.Base.Run.{Returns, bf_sys_assert_ok}
use target_utils.Judy.One.{Judy1, Rc, jerr, rc_zero, rc_one, Wrote, HasMemory}
use target_utils.Judy.Many.{JudyL}
use target_utils.Power2.{is_nonzero}
use target_utils.Power2.SelfCheck.{mark_range}

-- An entry of a list covers an index.
abbrev pub Covers : (ℕ → Option ℕ) → ℕ → Type 0
Covers f k = (c : ℕ) × (v : ℕ) × (f c ≡ some v) × (c ≤ k) × (k < c + v)

-- One below `from` does.
abbrev pub CoversBelow : (ℕ → Option ℕ) → ℕ → ℕ → Type 0
CoversBelow f from k = (c : ℕ) × (v : ℕ) × (f c ≡ some v) × (c < from) × (c ≤ k) × (k < c + v)

-- The entries lie apart within the first `total` indexes.
pub record IsListed (f : ℕ → Option ℕ) (total : ℕ) : Type 0 where
  pub within : (c v : ℕ) → f c ≡ some v → (0 < v) × (c + v ≤ total)
  pub apart : (c v d w : ℕ) → f c ≡ some v → f d ≡ some w → c < d → c + v ≤ d

module _ (judy1 : Judy1) where
  open judy1 use {Arr, test, j1s, j1s-Wrote}

  -- The marked indexes are those of a predicate.
  abbrev pub Marks : Arr → (ℕ → Type 0) → Type 0
  Marks marked P = ((k : ℕ) → test marked k ≡ true → P k) × ((k : ℕ) → P k → test marked k ≡ true)

  module _ (asserts : Bool) (memory : HasMemory judy1) (judy : JudyL) where
    rc_passes :
        (p q : ℕ → Bool) (i : ℕ) (rc : Rc)
        → p i ≡ false
        → rc ≢ jerr
        → Wrote p i true q rc
        → (is_nonzero rc ≡ true) × ((k : ℕ) → q k ≡ (if i == k then true else p k))
    rc_passes p q i jerr clear some_memory wrote = absurd (some_memory refl)
    rc_passes p q i rc_zero clear some_memory (same, wrote) =
        absurd (let e = sym clear ∙ same in cc)
    rc_passes p q i rc_one clear some_memory (other, wrote) = (refl, wrote)

    mark_range_step :
        (fuel : ℕ) (marked : Arr) (i e : ℕ)
        → i < e
        → e < word32
        → is_nonzero (j1s marked i).1 ≡ true
        → mark_range judy judy1 asserts (suc fuel) marked i e
          ≡ mark_range judy judy1 asserts fuel (j1s marked i).0 (i + 1) e
    unfolding mark_range
    mark_range_step fuel marked i e below small passes =
        let next : add32 i 1 ≡ i + 1 = omega arith in
        rw
          (
            lt→ltb i e below,
            mark_range,
            bf_sys_assert_ok asserts (is_nonzero (j1s marked i).1) passes,
            next,
          )
          refl

    -- The range is marked, and what was marked before.
    mark_range-Marked :
        (fuel : ℕ) (marked : Arr) (i e : ℕ)
        → i ≤ e
        → e < word32
        → e < i + fuel
        → ((k : ℕ) → i ≤ k → k < e → test marked k ≡ false)
        → Returns
            (mark_range judy judy1 asserts fuel marked i e)
            (λ r. (k : ℕ) → test r k ≡ (if leb i k && ltb k e then true else test marked k))
    unfolding mark_range
    mark_range-Marked zero marked i e le small enough clear = absurd (omega arith)
    mark_range-Marked (suc fuel) marked i e le small enough clear = elim (Bool-cases (ltb i e)) [
      | inr done ↦
          let level : e ≡ i = omega (arith, ltb→le i e done) in
          (
            marked,
            rw (done, mark_range) refl,
            λ k. sym (ap (λ b. if b then true else test marked k) (no_index i e k level)),
          )
      | inl more ↦
          let below = ltb→lt i e more in
          let (passes, wrote) =
            rc_passes (test marked) (test (j1s marked i).0) i (j1s marked i).1
              (clear i (omega arith) below) (memory marked i).0 (j1s-Wrote marked i) in
          let (r, run, marks) =
            mark_range-Marked fuel (j1s marked i).0 (i + 1) e (omega arith) small (omega arith)
              (λ k p q.
                let apart : (i == k) ≡ false = ground arith in
                wrote k
                ∙ ap (λ b. if b then true else test marked k) apart
                ∙ clear k (omega arith) q) in
          (
            r,
            mark_range_step fuel marked i e below small passes ∙ run,
            λ k.
                marks k
                ∙ ap (λ t. if leb (i + 1) k && ltb k e then true else t) (wrote k)
                ∙ one_more i e k (test marked k) below,
          )
    ]
      where
        no_index : (i e k : ℕ) → e ≡ i → (leb i k && ltb k e) ≡ false
        no_index i e k level = ground arith

        one_more :
            (i e k : ℕ) (t : Bool)
            → i < e
            → (if leb (i + 1) k && ltb k e then true else if i == k then true else t)
              ≡ (if leb i k && ltb k e then true else t)
        one_more i e k t below = ground arith

    -- A block is marked where no index of it was.
    pub block_marked :
        (P : ℕ → Type 0) (marked : Arr) (c v end : ℕ)
        → Marks marked P
        → c + v < word32
        → end ≡ c + v
        → ((k : ℕ) → c ≤ k → k < c + v → P k → ⊥)
        → Returns
            (mark_range judy judy1 asserts (suc v) marked (u32 c) end)
            (λ r. Marks r (λ k. P k ⊎ ((c ≤ k) × (k < c + v))))
    block_marked P marked c v end (sound, complete) small at clear =
        let word : u32 c ≡ c = omega arith in
        let (r, run, marks) =
          mark_range-Marked (suc v) marked c (c + v) (omega arith) small (omega arith) unmarked in
        (
          r,
          ap (λ i. mark_range judy judy1 asserts (suc v) marked i end) word
              ∙ ap (λ e. mark_range judy judy1 asserts (suc v) marked c e) at
              ∙ run,
          (
            λ k t. elim (Bool-cases (leb c k && ltb k (c + v))) [
              | inl here ↦ inr (ground arith, ground arith)
              | inr out ↦ inl (
                  sound k
                    (ap (λ b. if b then true else test marked k) (sym out) ∙ sym (marks k) ∙ t))
            ],
            λ k covered. elim covered [
              | inl old ↦ marks k ∙ kept (leb c k && ltb k (c + v)) (test marked k) (complete k old)
              | inr (from, below) ↦
                  let here : (leb c k && ltb k (c + v)) ≡ true = ground arith in
                  marks k ∙ ap (λ b. if b then true else test marked k) here
            ],
          ),
        )
      where
        kept : (b t : Bool) → t ≡ true → (if b then true else t) ≡ true
        kept true t e = refl
        kept false t e = e

        unmarked : (k : ℕ) → c ≤ k → k < c + v → test marked k ≡ false
        unmarked k p q = elim (Bool-cases (test marked k)) [
          | inl on ↦ absurd (clear k p q (sound k on))
          | inr off ↦ off
        ]
