-- ===== src/Power2/RoundTrip.antt =====
-- `power2_allocator_insert_one_free` and `power2_allocator_remove_free_index` of
-- src/power2_allocator/power2_allocator.c, one after the other.
use target_utils.Base.{ℕ, ◌+◌, ◌≤◌, ◌<◌, ◌≡◌, refl, sym, ap, ◌∙◌, word32, Bool, Option, none, some}
use target_utils.Base.Run.{Run, ◌>>=◌}
use target_utils.Judy.Many.{JudyL, HasMemory}
use target_utils.Power2.{
  Allocator, power2_allocator_insert_one_free, power2_allocator_remove_free_index,
}
use target_utils.Power2.Pieces.{pieces_of, pieces-inside, some_ne_none}
use target_utils.Power2.Insert.{
  over, free_at, Kept-trans, Frees, power2_allocator_insert_one_free_lem,
}
use target_utils.Power2.Remove.{without, power2_allocator_remove_free_index_lem}

without-over :
    (new old : Option ℕ) → ((v : ℕ) → new ≡ some v → old ≡ none) → without new (over new old) ≡ old
without-over (some v) old h = sym (h v refl)
without-over none old h = refl

module _ (judy : JudyL) (asserts : Bool) where
  -- A range that is made free and taken back.
  abbrev pub free_and_take : Allocator judy → ℕ → ℕ → Run (Allocator judy × ℕ)
  free_and_take al cur rem = do
    (al', rc) ← power2_allocator_insert_one_free judy asserts al cur rem
    power2_allocator_remove_free_index judy asserts al' cur rem

  -- As long as memory does not run out, on an allocator of 1 to 32 free lists and a range below
  -- 2^32 with no free entry in it, `power2_allocator_insert_one_free` followed by
  -- `power2_allocator_remove_free_index` fails no assertion, ends, returns 0, and restores the free
  -- entries of every list; nothing else changed.
  pub power2_allocator_remove_free_index-power2_allocator_insert_one_free :
      HasMemory judy
      → (al : Allocator judy) (cur rem : ℕ) → 0 < al.no_free_lists
      → al.no_free_lists ≤ 32
      → cur + rem < word32
      → ((l k : ℕ) → cur ≤ k → k < cur + rem → free_at judy al l k ≡ none)
      → Frees judy al (free_at judy al) (free_and_take al cur rem)
  power2_allocator_remove_free_index-power2_allocator_insert_one_free memory al cur rem lists few
        fits free =
      let nfl = al.no_free_lists in
      let (al', run, kept, content) =
        power2_allocator_insert_one_free_lem judy asserts memory al cur rem lists few fits free in
      let same : al'.no_free_lists ≡ nfl = kept.no_free_lists in
      let (al'', run', kept', content') =
        power2_allocator_remove_free_index_lem judy asserts memory al' cur rem (rw same lists)
          (rw same few) fits
          (λ l k v e.
            content l k
            ∙ ap (λ o. over o (free_at judy al l k))
                (ap (λ n. pieces_of n cur rem l k) (sym same) ∙ e)) in
      (
        al'',
        ap (λ r. do (a, rc) ← r; power2_allocator_remove_free_index judy asserts a cur rem) run
            ∙ run',
        Kept-trans judy al al' al'' kept kept',
        λ l k.
            content' l k
            ∙ ap (λ n. without (pieces_of n cur rem l k) (free_at judy al' l k)) same
            ∙ ap (without (pieces_of nfl cur rem l k)) (content l k)
            ∙ without-over (pieces_of nfl cur rem l k) (free_at judy al l k) (λ v e.
              let (lo, hi) =
                pieces-inside _ nfl cur rem l k lists few fits
                  (λ q. absurd (some_ne_none (sym e ∙ q))) in
              free l k lo hi),
      )
