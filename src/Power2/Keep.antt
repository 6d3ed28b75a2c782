-- ===== src/Power2/Keep.antt =====
-- The invariant of src/power2_allocator/power2_allocator.c where one block comes into use or goes out
-- of use in a gap, and all else is as before.
use target_utils.Base.{
  ℕ, ◌+◌, ◌-◌, ◌≤◌, ◌<◌, ◌≡◌, sym, ap, ◌∙◌, arith, Bool, Option, none, some, inl, inr,
}
use target_utils.Judy.Many.{JudyL}
use target_utils.Power2.{Allocator}
use target_utils.Power2.Pieces.{pieces_of}
use target_utils.Power2.Ranges.{Changed}
use target_utils.Power2.Gaps.{IsFilled, IsClear}
use target_utils.Power2.Valid.{IsApart, IsEnd, IsGap, IsValid, blocks_of}
use target_utils.Power2.Freed.{old_block, rest-IsApart, rest-IsGap, rest-outside}
use target_utils.Power2.Reserved.{block_cases, more-IsApart, more-IsGap}

pub IsEnd-le :
    (used : ℕ → Option ℕ) (total e : ℕ) → IsApart used total → IsEnd used total e → e ≤ total
IsEnd-le used total e is_apart (inl border) = omega arith
IsEnd-le used total e is_apart (inr (v, there)) =
    let b = is_apart.within e v there in omega (arith, b)

pieces_moved :
    (n s e s' e' l k : ℕ)
    → (s' ≡ s) × (e' ≡ e)
    → pieces_of n s (e - s) l k ≡ pieces_of n s' (e' - s') l k
pieces_moved n s e s' e' l k same =
    ap (λ m. pieces_of n m (e - m) l k) (sym same.0)
    ∙ ap (λ m. pieces_of n s' (m - s') l k) (sym same.1)

module _ (judy : JudyL) (asserts : Bool) (al after : Allocator judy) (valid : IsValid judy al)
    (s i size e : ℕ) where
  abbrev old : ℕ → Option ℕ
  old = blocks_of judy al

  abbrev new : ℕ → Option ℕ
  new = blocks_of judy after

  abbrev total : ℕ
  total = al.total_size

  pub added-IsValid :
      Changed judy asserts al s e i (some size) after
      → IsGap old total s e
      → s ≤ i
      → 0 < size
      → i + size ≤ e
      → IsFilled judy after s i
      → IsClear judy after i (i + size)
      → IsFilled judy after (i + size) e
      → IsValid judy after
  added-IsValid c around before pos behind left clear right =
      let below = IsEnd-le old total e valid.blocks around.ends in
      let same_total : after.total_size ≡ total = c.sizes.1 in
      record {
        sized = rw (c.sizes.0, c.sizes.2) valid.sized;
        largest = rw c.sizes.0 valid.largest;
        few = rw c.sizes.2 valid.few;
        small = rw same_total valid.small;
        wide = omega (arith, valid.wide, same_total, c.sizes.0);
        blocks = rw same_total (
            more-IsApart old new total s i size e valid.blocks around before pos behind below
              c.used);
        gaps = λ s' e' g l k p q.
            elim (more-IsGap old new total s i size e valid.blocks around before pos behind below
              c.used s' e' k (rw same_total at g) p q) [
                | inl same ↦
                    left l k (omega (arith, same)) (omega (arith, same))
                    ∙ pieces_moved after.no_free_lists s i s' e' l k same
                | inr (inl same) ↦
                    right l k (omega (arith, same)) (omega (arith, same))
                    ∙ pieces_moved after.no_free_lists (i + size) e s' e' l k same
                | inr (inr (g', out)) ↦
                    c.outside l k out
                    ∙ valid.gaps s' e' g' l k p q
                    ∙ ap (λ n. pieces_of n s' (e' - s') l k) (sym c.sizes.2)
              ];
        busy = λ j v here l k p q.
            elim (block_cases old new total s i size e valid.blocks around before pos behind below
              c.used j v here) [
                | inl level ↦ clear l k (omega (arith, level)) (omega (arith, level))
                | inr (there, out) ↦
                    c.outside l k (ground (arith, out)) ∙ valid.busy j v there l k p q
              ];
        beyond = λ l k p.
            c.outside l k (inr (omega (arith, below, same_total)))
            ∙ valid.beyond l k (omega (arith, same_total));
      }

  pub dropped-IsValid :
      Changed judy asserts al s e i none after
      → old i ≡ some size
      → IsGap old total s i
      → IsGap old total (i + size) e
      → IsFilled judy after s e
      → IsValid judy after
  dropped-IsValid c there left right merged =
      let below = IsEnd-le old total e valid.blocks right.ends in
      let same_total : after.total_size ≡ total = c.sizes.1 in
      record {
        sized = rw (c.sizes.0, c.sizes.2) valid.sized;
        largest = rw c.sizes.0 valid.largest;
        few = rw c.sizes.2 valid.few;
        small = rw same_total valid.small;
        wide = omega (arith, valid.wide, same_total, c.sizes.0);
        blocks =
            rw same_total
              (rest-IsApart old new total s i size e valid.blocks there left right c.used);
        gaps = λ s' e' g l k p q.
            elim (rest-IsGap old new total s i size e valid.blocks there left right c.used s' e' k
              (rw same_total at g) p q) [
                | inl same ↦
                    merged l k (omega (arith, same)) (omega (arith, same))
                    ∙ pieces_moved after.no_free_lists s e s' e' l k same
                | inr (g', out) ↦
                    c.outside l k out
                    ∙ valid.gaps s' e' g' l k p q
                    ∙ ap (λ n. pieces_of n s' (e' - s') l k) (sym c.sizes.2)
              ];
        busy = λ j v here l k p q.
            c.outside l k (
              rest-outside old new total s i size e valid.blocks there left right c.used j v k here
                p q)
            ∙ valid.busy j v
                (old_block old new total s i size e valid.blocks there left right c.used j v here).0
                l k p q;
        beyond = λ l k p.
            c.outside l k (inr (omega (arith, below, same_total)))
            ∙ valid.beyond l k (omega (arith, same_total));
      }
