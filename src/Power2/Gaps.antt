-- ===== src/Power2/Gaps.antt =====
-- The free ranges between the blocks in use, in src/power2_allocator/power2_allocator.c: what it
-- takes to take one out of the free lists, or to put one in.
use target_utils.Base.{
  ℕ, ◌-◌, ◌≤◌, ◌<◌, ◌≡◌, refl, sym, ap, ◌∙◌, arith, word32, Bool, Option, none, some, Option-cases,
  ◌⊎◌, inl, inr,
}
use target_utils.Base.Run.{ok}
use target_utils.Judy.Many.{JudyL, HasMemory}
use target_utils.Power2.{
  Allocator, power2_allocator_insert_one_free, power2_allocator_remove_free_index,
}
use target_utils.Power2.Pieces.{pieces_of, pieces-inside, some_ne_none}
use target_utils.Power2.Insert.{over, free_at, Kept, power2_allocator_insert_one_free_lem}
use target_utils.Power2.Remove.{without, power2_allocator_remove_free_index_lem}

pieces_of-outside :
    (nfl s e l k : ℕ)
    → 0 < nfl
    → nfl ≤ 32
    → s ≤ e
    → e < word32
    → (k < s) ⊎ (e ≤ k)
    → pieces_of nfl s (e - s) l k ≡ none
pieces_of-outside nfl s e l k lists few le small out =
    elim (Option-cases (pieces_of nfl s (e - s) l k)) [
      | inl gone ↦ gone
      | inr (v, here) ↦
          let b =
            pieces-inside _ nfl s (e - s) l k lists few (omega arith)
              (λ q. absurd (some_ne_none (sym here ∙ q))) in
          absurd (ground (arith, b, out))
    ]

without_same : (o : Option ℕ) → without o o ≡ none
without_same none = refl
without_same (some v) = refl

over-none : (o : Option ℕ) → over o none ≡ o
over-none none = refl
over-none (some v) = refl

module _ (judy : JudyL) where
  -- The free entries from `s` up to `e` are the chunks of this range.
  abbrev pub IsFilled : Allocator judy → ℕ → ℕ → Type 0
  IsFilled al s e =
      (l k : ℕ) → s ≤ k → k < e → free_at judy al l k ≡ pieces_of al.no_free_lists s (e - s) l k

  -- There is no free entry from `s` up to `e`.
  abbrev pub IsClear : Allocator judy → ℕ → ℕ → Type 0
  IsClear al s e = (l k : ℕ) → s ≤ k → k < e → free_at judy al l k ≡ none

  -- The free entries below `s` and from `e` on are the same.
  abbrev pub SameOutside : Allocator judy → Allocator judy → ℕ → ℕ → Type 0
  SameOutside al al' s e =
      (l k : ℕ) → (k < s) ⊎ (e ≤ k) → free_at judy al' l k ≡ free_at judy al l k

  module _ (asserts : Bool) (memory : HasMemory judy) (al : Allocator judy) (s e : ℕ)
      (lists : 0 < al.no_free_lists) (few : al.no_free_lists ≤ 32) (le : s ≤ e)
      (small : e < word32) where
    pub take_gap :
        IsFilled al s e
        → (al' : Allocator judy) × (power2_allocator_remove_free_index judy asserts al s (e - s)
            ≡ ok (al', 0))
          × Kept judy al al'
          × IsClear al' s e
          × SameOutside al al' s e
    take_gap filled =
        let nfl = al.no_free_lists in
        let (al', run, kept, content) =
          power2_allocator_remove_free_index_lem judy asserts memory al s (e - s) lists few
            (omega arith)
            (λ l k v here.
              let b =
                pieces-inside _ nfl s (e - s) l k lists few (omega arith)
                  (λ q. absurd (some_ne_none (sym here ∙ q))) in
              filled l k b.0 (omega (arith, b.1)) ∙ here) in
        (
          al',
          run,
          kept,
          (λ l k p q.
              content l k
              ∙ ap (without (pieces_of nfl s (e - s) l k)) (filled l k p q)
              ∙ without_same (pieces_of nfl s (e - s) l k)),
          λ l k out.
              content l k
              ∙ ap (λ o. without o (free_at judy al l k))
                  (pieces_of-outside nfl s e l k lists few le small out),
        )

    pub fill_gap :
        IsClear al s e
        → (al' : Allocator judy) × (power2_allocator_insert_one_free judy asserts al s (e - s)
            ≡ ok (al', 0))
          × Kept judy al al'
          × IsFilled al' s e
          × SameOutside al al' s e
    fill_gap clear =
        let nfl = al.no_free_lists in
        let (al', run, kept, content) =
          power2_allocator_insert_one_free_lem judy asserts memory al s (e - s) lists few
            (omega arith) (λ l k p q. clear l k p (omega arith)) in
        (
          al',
          run,
          kept,
          (λ l k p q.
              content l k
              ∙ ap (over (pieces_of nfl s (e - s) l k)) (clear l k p q)
              ∙ over-none (pieces_of nfl s (e - s) l k)
              ∙ ap (λ n. pieces_of n s (e - s) l k) (sym kept.no_free_lists)),
          λ l k out.
              content l k
              ∙ ap (λ o. over o (free_at judy al l k))
                  (pieces_of-outside nfl s e l k lists few le small out),
        )
