-- ===== src/Fbitset/Bit.antt =====
-- `bf_fbs_set` of src/fbitset/fbitset.c on one bit, as `bf_fbs_get` reads it.
use target_utils.Base.{
  ℕ, ◌<◌, ◌≤◌, ◌≡◌, ◌≢◌, refl, sym, ap, ◌∙◌, arith, Bool, true, false, not, ltb, lt→ltb, ◌==◌,
  if◌then◌else◌,
}
use target_utils.Base.Run.{ok, ◌>>◌, bf_sys_assert, bf_sys_assert_ok, Returns}
use target_utils.Judy.One.{Judy1, Rc, jerr, rc_zero, rc_one, Wrote, HasMemory}
use target_utils.Fbitset.{Fbitset, is_negative, is_true, position_asserts, bf_fbs_set, bf_fbs_get}

module _ (judy : Judy1) (asserts : Bool) where
  open judy use {Arr, test, j1s, j1u, j1s-Wrote, j1u-Wrote}

  position_ok :
      (bs : Fbitset judy) (position : ℕ)
      → position < bs.width
      → bs.width ≤ 0x8000_0000
      → position_asserts judy asserts bs position ≡ ok tt
  position_ok bs position within small =
      rw
        (
          bf_sys_assert_ok asserts (not (is_negative position)) (ground arith),
          bf_sys_assert_ok asserts (ltb position bs.width) (lt→ltb position bs.width within),
        )
        refl

  get_ok :
      (bs : Fbitset judy) (position : ℕ)
      → position < bs.width
      → bs.width ≤ 0x8000_0000
      → bf_fbs_get judy asserts bs position ≡ ok (test bs.fbs position)
  unfolding bf_fbs_get
  get_ok bs position within small =
      ap (λ r. do r; ok (test bs.fbs position)) (position_ok bs position within small)

  -- The set after a write of `b`, and the bit before it.
  abbrev pub Written : Fbitset judy → ℕ → Bool → Fbitset judy × Bool → Type 0
  Written bs position b (bs', old) =
      (bs'.width ≡ bs.width)
      × (bf_fbs_get judy asserts bs position ≡ ok old)
      × ((k : ℕ)
          → k < bs.width
          → bf_fbs_get judy asserts bs' k
            ≡ (if position == k then ok b else bf_fbs_get judy asserts bs k))

  written :
      (bs : Fbitset judy) (position : ℕ) (b : Bool) (a : Arr) (rc : Rc)
      → position < bs.width
      → bs.width ≤ 0x8000_0000
      → rc ≢ jerr
      → Wrote (test bs.fbs) position b (test a) rc
      → Written bs position b (record bs { fbs = a }, if b then not (is_true rc) else is_true rc)
  written bs position b a rc within small h w = (
    refl,
    get_ok bs position within small ∙ ap ok (old b rc h w),
    λ k p.
        get_ok (record bs { fbs = a }) k p small
        ∙ ap ok (new rc h w k)
        ∙ sym (split k)
        ∙ ap (λ r. if position == k then ok b else r) (sym (get_ok bs k p small)),
  )
    where
      old :
          (b : Bool) (rc : Rc)
          → rc ≢ jerr
          → Wrote (test bs.fbs) position b (test a) rc
          → test bs.fbs position ≡ (if b then not (is_true rc) else is_true rc)
      old b jerr h w = absurd (h refl)
      old true rc_zero h w = w.0
      old false rc_zero h w = w.0
      old true rc_one h w = w.0
      old false rc_one h w = w.0

      new :
          (rc : Rc)
          → rc ≢ jerr
          → Wrote (test bs.fbs) position b (test a) rc
          → (k : ℕ) → test a k ≡ (if position == k then b else test bs.fbs k)
      new jerr h w k = absurd (h refl)
      new rc_zero h w k = w.1 k
      new rc_one h w k = w.1 k

      split :
          (k : ℕ)
          → (if position == k then ok b else ok (test bs.fbs k))
            ≡ ok (if position == k then b else test bs.fbs k)
      split k = by_test (position == k)
        where
          by_test :
              (c : Bool)
              → (if c then ok b else ok (test bs.fbs k)) ≡ ok (if c then b else test bs.fbs k)
          by_test true = refl
          by_test false = refl

  -- As long as memory does not run out, on a set of at most 2^31 bits and a position below the
  -- width, `bf_fbs_set` to 0 or 1 fails no assertion, returns the bit as `bf_fbs_get` read it
  -- before, and afterwards `bf_fbs_get` reads the new bit at the position and every other bit as
  -- before.
  pub bf_fbs_set-Returns :
      HasMemory judy
      → (bs : Fbitset judy) (position : ℕ) (val : Bool) → position < bs.width
      → bs.width ≤ 0x8000_0000
      → Returns
          (bf_fbs_set judy asserts bs position (if val then 1 else 0))
          (Written bs position val)
  unfolding bf_fbs_set
  bf_fbs_set-Returns memory bs position true within small = (
    _,
    ap
          (λ r. do
            r
            bf_sys_assert asserts true
            ok (record bs { fbs = (j1s bs.fbs position).0 }, not (is_true (j1s bs.fbs position).1)))
          (position_ok bs position within small)
        ∙ rw (bf_sys_assert_ok asserts true refl) refl,
    written bs position true _ _ within small (memory bs.fbs position).0
        (j1s-Wrote bs.fbs position),
  )
  bf_fbs_set-Returns memory bs position false within small = (
    _,
    ap
          (λ r. do
            r
            bf_sys_assert asserts true
            ok (record bs { fbs = (j1u bs.fbs position).0 }, is_true (j1u bs.fbs position).1))
          (position_ok bs position within small)
        ∙ rw (bf_sys_assert_ok asserts true refl) refl,
    written bs position false _ _ within small (memory bs.fbs position).1
        (j1u-Wrote bs.fbs position),
  )
