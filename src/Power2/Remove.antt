-- ===== src/Power2/Remove.antt =====
-- `power2_allocator_remove_free_index` of src/power2_allocator/power2_allocator.c, round by round and
-- as a whole.
use target_utils.Base.{
  ℕ, zero, suc, ◌+◌, ◌-◌, ◌≤◌, ◌<◌, ◌≡◌, ◌≢◌, refl, sym, ap, ◌∙◌, arith, word32, Option, none, some,
  Bool, true, false, ◌&&◌, ◌==◌, ==_iff, ==_refl, u32, add32, sub32, if◌then◌else◌, Bool-cases, inl,
  inr,
}
use target_utils.Base.Run.{ok, bf_sys_assert_ok}
use target_utils.Judy.One.{Rc, jerr, rc_zero, rc_one}
use target_utils.Judy.Many.{JudyL, Deleted, HasMemory}
use target_utils.Power2.{
  Allocator, free_log2_of, piece_of, is_nonzero, set_list, remove_piece, remove_loop,
  power2_allocator_remove_free_index,
}
use target_utils.Power2.Pieces.{
  pieces, pieces_of, pieces_step, pieces-later, pieces-done, some_ne_none, free_log2_of-aligned,
  piece_bounds,
}
use target_utils.Power2.Insert.{
  free_at, Kept-refl, Kept-set_list, Kept-trans, Frees, free_at-set_list, round_asserts_ok,
}

-- What is left without the chunks of a range.
abbrev pub without : Option ℕ → Option ℕ → Option ℕ
without (some v) old = none
without none old = old

without_step :
    (v : ℕ) (t : Bool) (later old : Option ℕ)
    → (t ≡ true → later ≡ none)
    → without later (if t then none else old) ≡ without (if t then some v else later) old
without_step v true later old h = rw (h refl) refl
without_step v false later old h = refl

module _ (judy : JudyL) (asserts : Bool) where
  open judy use {Arr, lookup, jld, jlg, jld-Deleted, jlg_lem}

  pub is_nonzero_ok :
      (f g : ℕ → Option ℕ) (i : ℕ) (rc : Rc) → f i ≢ none → Deleted f i g rc → is_nonzero rc ≡ true
  is_nonzero_ok f g i rc_zero h t = absurd (h t.0)
  is_nonzero_ok f g i rc_one h t = refl
  is_nonzero_ok f g i jerr h t = refl

  pub deleted :
      (f g : ℕ → Option ℕ) (i : ℕ) (rc : Rc)
      → f i ≢ none
      → rc ≢ jerr
      → Deleted f i g rc
      → (k : ℕ) → g k ≡ (if i == k then none else f k)
  deleted f g i rc_zero h n t = absurd (h t.0)
  deleted f g i rc_one h n t = t.1
  deleted f g i jerr h n t = absurd (n refl)

  module _ (memory : HasMemory judy) (al : Allocator judy) (cur rem : ℕ)
      (lists : 0 < al.no_free_lists) (few : al.no_free_lists ≤ 32) (pos : 0 < rem)
      (fits : cur + rem < word32) where
    abbrev fl : ℕ
    fl = free_log2_of al.no_free_lists cur rem

    remove_piece_lem :
        free_at judy al fl cur ≡ some (piece_of fl rem)
        → Frees judy al
            (λ l k. if fl == l && cur == k then none else free_at judy al l k)
            (remove_piece judy asserts al cur rem)
    remove_piece_lem e =
        let a = al.free_lists fl in
        let here : lookup a cur ≢ none = rw e some_ne_none in
        let b = piece_bounds al.no_free_lists cur rem lists few pos fits in
        let word : u32 (piece_of fl rem) ≡ piece_of fl rem = omega (arith, b) in
        (
          set_list judy al fl (jld a cur).0,
          rw
              (
                round_asserts_ok judy asserts fl cur
                    (free_log2_of-aligned al.no_free_lists cur rem lists few pos fits),
                jlg_lem a cur,
                e,
                bf_sys_assert_ok asserts (is_nonzero (jld a cur).1)
                    (is_nonzero_ok (lookup a) _ cur _ here (jld-Deleted a cur)),
                word,
                bf_sys_assert_ok asserts (piece_of fl rem == piece_of fl rem) (==_refl _),
              )
              refl,
          Kept-set_list judy al fl _,
          free_at-set_list judy al fl cur (jld a cur).0 none
              (deleted (lookup a) _ cur _ here (memory a cur).1 (jld-Deleted a cur)),
        )

  remove_loop_step :
      (fuel : ℕ) (al al' : Allocator judy) (cur rem : ℕ)
      → 0 < rem
      → let piece = piece_of (free_log2_of al.no_free_lists cur rem) rem in
        cur + piece < word32
        → piece ≤ rem
        → rem < word32
        → remove_piece judy asserts al cur rem ≡ ok (al', 0)
        → remove_loop judy asserts (suc fuel) al cur rem
          ≡ remove_loop judy asserts fuel al' (cur + piece) (rem - piece)
  unfolding remove_loop
  remove_loop_step fuel al al' cur rem pos fits le small run =
      let more : (rem == 0) ≡ false = ground arith in
      let piece = piece_of (free_log2_of al.no_free_lists cur rem) rem in
      let cur' : add32 cur piece ≡ cur + piece = omega arith in
      let rem' : sub32 rem piece ≡ rem - piece = omega arith in
      rw (more, remove_loop, run, cur', rem') refl

  -- The later chunks are still there once the first is gone.
  later_there :
      (al al' : Allocator judy) (fuel cur rem l k v : ℕ)
      → 0 < al.no_free_lists
      → al.no_free_lists ≤ 32
      → 0 < rem
      → cur + rem < word32
      → let fl = free_log2_of al.no_free_lists cur rem in
        let piece = piece_of fl rem in
        (pieces (suc fuel) al.no_free_lists cur rem l k ≡ some v → free_at judy al l k ≡ some v)
        → free_at judy al' l k ≡ (if fl == l && cur == k then none else free_at judy al l k)
        → pieces fuel al.no_free_lists (cur + piece) (rem - piece) l k ≡ some v
        → free_at judy al' l k ≡ some v
  later_there al al' fuel cur rem l k v lists few pos fits there content e =
      let nfl = al.no_free_lists in
      let fl = free_log2_of nfl cur rem in
      elim (Bool-cases (fl == l && cur == k)) [
        | inl here ↦
            absurd
              (some_ne_none (sym e ∙ pieces-later fuel nfl cur rem l k lists few pos fits here))
        | inr other ↦
            content
            ∙ ap (λ c. if c then none else free_at judy al l k) other
            ∙ there (
                pieces_step fuel nfl cur rem l k pos
                ∙ ap
                    (λ c.
                      if c
                      then some (piece_of fl rem)
                      else pieces fuel nfl (cur + piece_of fl rem) (rem - piece_of fl rem) l k)
                    other
                ∙ e)
      ]

  remove_loop_lem :
      HasMemory judy
      → (fuel : ℕ) (al : Allocator judy) (cur rem : ℕ) → 0 < al.no_free_lists
      → al.no_free_lists ≤ 32
      → rem < fuel
      → cur + rem < word32
      → ((l k v : ℕ)
          → pieces fuel al.no_free_lists cur rem l k ≡ some v
          → free_at judy al l k ≡ some v)
      → Frees judy al
          (λ l k. without (pieces fuel al.no_free_lists cur rem l k) (free_at judy al l k))
          (remove_loop judy asserts fuel al cur rem)
  remove_loop_lem memory zero al cur rem lists few enough fits there = absurd (omega arith)
  remove_loop_lem memory (suc fuel) al cur rem lists few enough fits there =
      elim (Bool-cases (rem == 0)) [
        | inl done ↦ (
          al,
          unfold remove_loop in (rw (done, remove_loop) refl),
          Kept-refl judy al,
          λ l k. rw (pieces-done fuel al.no_free_lists cur rem l k ((==_iff rem 0).0 done)) refl,
        )
        | inr more ↦
            let pos : 0 < rem = ground arith in
            let nfl = al.no_free_lists in
            let fl = free_log2_of nfl cur rem in
            let piece = piece_of fl rem in
            let b = piece_bounds nfl cur rem lists few pos fits in
            let first : pieces (suc fuel) nfl cur rem fl cur ≡ some piece =
              pieces_step fuel nfl cur rem fl cur pos ∙ rw (==_refl fl, ==_refl cur) refl in
            let (al', run, kept, content) =
              remove_piece_lem memory al cur rem lists few pos fits (there fl cur piece first) in
            let same_lists : al'.no_free_lists ≡ nfl = kept.no_free_lists in
            let (al'', run', kept', content') =
              remove_loop_lem memory fuel al' (cur + piece) (rem - piece) (omega arith)
                (omega arith) (omega (arith, b)) (omega (arith, b))
                (λ l k v e.
                  later_there al al' fuel cur rem l k v lists few pos fits (there l k v)
                    (content l k)
                    (ap (λ n. pieces fuel n (cur + piece) (rem - piece) l k) (sym same_lists)
                      ∙ e)) in
            (
              al'',
              remove_loop_step fuel al al' cur rem pos (omega (arith, b)) b.1 (omega arith) run
                  ∙ run',
              Kept-trans judy al al' al'' kept kept',
              λ l k.
                  content' l k
                  ∙ ap
                      (λ n.
                        without (pieces fuel n (cur + piece) (rem - piece) l k)
                          (free_at judy al' l k))
                      same_lists
                  ∙ ap (λ o. without (pieces fuel nfl (cur + piece) (rem - piece) l k) o)
                      (content l k)
                  ∙ without_step piece (fl == l && cur == k) _ (free_at judy al l k)
                      (pieces-later fuel nfl cur rem l k lists few pos fits)
                  ∙ ap (λ o. without o (free_at judy al l k))
                      (sym (pieces_step fuel nfl cur rem l k pos)),
            )
      ]

  -- As long as memory does not run out, on an allocator of 1 to 32 free lists and a range below
  -- 2^32 whose chunks are in the free lists, `power2_allocator_remove_free_index` fails no
  -- assertion, ends, and returns 0; the chunks of the range are then out of the free lists, and
  -- nothing else changed.
  pub power2_allocator_remove_free_index_lem :
      HasMemory judy
      → (al : Allocator judy) (cur rem : ℕ) → 0 < al.no_free_lists
      → al.no_free_lists ≤ 32
      → cur + rem < word32
      → ((l k v : ℕ)
          → pieces_of al.no_free_lists cur rem l k ≡ some v
          → free_at judy al l k ≡ some v)
      → Frees judy al
          (λ l k. without (pieces_of al.no_free_lists cur rem l k) (free_at judy al l k))
          (power2_allocator_remove_free_index judy asserts al cur rem)
  unfolding power2_allocator_remove_free_index
  power2_allocator_remove_free_index_lem memory al cur rem lists few fits there =
      remove_loop_lem memory (suc rem) al cur rem lists few (omega arith) fits there
