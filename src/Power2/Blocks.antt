-- ===== src/Power2/Blocks.antt =====
-- The list of blocks in use in src/power2_allocator/power2_allocator.c, and the parts of
-- `power2_allocator_release` and `power2_allocator_reserve` that change the lists.
use target_utils.Base.{
  ℕ, ◌+◌, ◌-◌, ◌≤◌, ◌<◌, ◌≡◌, ◌≢◌, refl, ap, ◌∙◌, arith, word32, Bool, true, false, Option, none,
  some, add32, sub32, ◌==◌, if◌then◌else◌, ==_iff, ==_refl,
}
use target_utils.Base.Run.{Run, ok, ◌>>◌, bf_sys_assert, bf_sys_assert_ok}
use target_utils.Judy.One.{Rc, jerr, rc_zero, rc_one}
use target_utils.Judy.Many.{
  JudyL, Pointer, pjerr, null, slot, value_or, Inserted, Deleted, HasMemory,
}
use target_utils.Power2.{
  Allocator, power2_allocator_insert_one_free, power2_allocator_remove_free_index, mark_at,
  power2_allocator_mark_inuse, power2_allocator_mark_free,
}
use target_utils.Power2.Calls.{release_block, reserve_block}

module _ (judy : JudyL) (asserts : Bool) where
  open judy use {Arr, lookup, jli, store, jld, jli-Inserted, jld-Deleted, lookup-store}

  -- The size of the block in use at an index.
  abbrev pub used_at : Allocator judy → ℕ → Option ℕ
  used_at al k = lookup al.inuse_list k

  module _ (memory : HasMemory judy) (al : Allocator judy) (i : ℕ) where
    -- The call ended, the list in use has `v` at the index, and nothing else changed.
    abbrev pub Marks : {R : Type 0} → Option ℕ → (Allocator judy → R) → Run R → Type 0
    Marks v result run =
        (a : Arr) × (run ≡ ok (result (record al { inuse_list = a })))
        × ((k : ℕ) → lookup a k ≡ (if i == k then v else used_at al k))

    pub power2_allocator_mark_inuse_lem :
        (size : ℕ)
        → used_at al i ≡ none
        → Marks (some size) (λ al'. (al', 0)) (power2_allocator_mark_inuse judy asserts al i size)
    unfolding power2_allocator_mark_inuse
    power2_allocator_mark_inuse_lem size free =
        by_pointer (jli al.inuse_list i).0 (jli al.inuse_list i).1 (memory al.inuse_list i).0
          (jli-Inserted al.inuse_list i)
      where
        by_pointer :
            (a : Arr) (p : Pointer)
            → p ≢ pjerr
            → Inserted (lookup al.inuse_list) i (lookup a) p
            → Marks (some size) (λ al'. (al', 0)) (mark_at judy asserts al size (a, p))
        by_pointer a pjerr h t = absurd (h refl)
        by_pointer a null h t = absurd t
        by_pointer a (slot j v) h (same, read, t) =
            let new : v ≡ 0 = read ∙ ap (λ o. value_or o 0) free in
            let there : lookup a j ≡ some v = t j ∙ rw (same, ==_refl i) refl in
            (
              store a j size,
              rw (bf_sys_assert_ok asserts (v == 0) ((==_iff v 0).1 new)) refl,
              λ k. lookup-store a j size k (rw there (λ q. cc)) ∙ rw same (ground (arith, t k)),
            )

    pub power2_allocator_mark_free_lem :
        used_at al i ≢ none → Marks none (λ al'. al') (power2_allocator_mark_free judy asserts al i)
    unfolding power2_allocator_mark_free
    power2_allocator_mark_free_lem used =
        by_rc (jld al.inuse_list i).0 (jld al.inuse_list i).1 (memory al.inuse_list i).1
          (jld-Deleted al.inuse_list i)
      where
        by_rc :
            (a : Arr) (rc : Rc)
            → rc ≢ jerr
            → Deleted (lookup al.inuse_list) i (lookup a) rc
            → Marks none
                (λ al'. al')
                (do
                  bf_sys_assert asserts (elim rc [ rc_one ↦ true | _ ↦ false ])
                  ok (record al { inuse_list = a }))
        by_rc a jerr h t = absurd (h refl)
        by_rc a rc_zero h t = absurd (used t.0)
        by_rc a rc_one h t = (a, rw (bf_sys_assert_ok asserts true refl) refl, t.1)

  -- The steps of a release, in ranges that do not wrap around.
  pub release_block_step :
      (al al₁ al₂ al₃ al₄ : Allocator judy) (s i size e : ℕ)
      → s ≤ i
      → i + size ≤ e
      → e < word32
      → power2_allocator_remove_free_index judy asserts al s (i - s) ≡ ok (al₁, 0)
      → power2_allocator_remove_free_index judy asserts al₁ (i + size) (e - (i + size))
        ≡ ok (al₂, 0)
      → power2_allocator_insert_one_free judy asserts al₂ s (e - s) ≡ ok (al₃, 0)
      → power2_allocator_mark_free judy asserts al₃ i ≡ ok al₄
      → release_block judy asserts al i size s e ≡ ok (al₄, 0)
  unfolding release_block
  release_block_step al al₁ al₂ al₃ al₄ s i size e before behind small run₁ run₂ run₃ run₄ =
      let e₁ : sub32 i s ≡ i - s = omega arith in
      let e₂ : add32 i size ≡ i + size = omega arith in
      let e₃ : sub32 e (i + size) ≡ e - (i + size) = omega arith in
      let e₄ : add32 (add32 size (i - s)) (e - (i + size)) ≡ e - s = omega arith in
      rw (e₁, e₂, e₃, e₄, run₁, run₂, run₃, run₄) refl

  -- The steps of a reservation, likewise.
  pub reserve_block_step :
      (al al₁ al₂ al₃ al₄ : Allocator judy) (s i size e : ℕ)
      → s ≤ i
      → i + size ≤ e
      → e < word32
      → power2_allocator_remove_free_index judy asserts al s (e - s) ≡ ok (al₁, 0)
      → power2_allocator_insert_one_free judy asserts al₁ s (i - s) ≡ ok (al₂, 0)
      → power2_allocator_insert_one_free judy asserts al₂ (i + size) (e - (i + size)) ≡ ok (al₃, 0)
      → power2_allocator_mark_inuse judy asserts al₃ i size ≡ ok (al₄, 0)
      → reserve_block judy asserts al i size s e ≡ ok (al₄, 0)
  unfolding reserve_block
  reserve_block_step al al₁ al₂ al₃ al₄ s i size e before behind small run₁ run₂ run₃ run₄ =
      let e₁ : sub32 e s ≡ e - s = omega arith in
      let e₂ : sub32 i s ≡ i - s = omega arith in
      let e₃ : add32 i size ≡ i + size = omega arith in
      let e₄ : sub32 e (i + size) ≡ e - (i + size) = omega arith in
      rw (e₁, e₂, e₃, e₄, run₁, run₂, run₃, run₄) refl
