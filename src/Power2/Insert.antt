-- ===== src/Power2/Insert.antt =====
-- `power2_allocator_insert_one_free` of src/power2_allocator/power2_allocator.c, round by round and
-- as a whole.
use target_utils.Base.{
  ℕ, zero, suc, ◌+◌, ◌-◌, ◌/◌, ◌%◌, ◌^◌, ◌≤◌, ◌<◌, ◌≡◌, ◌≢◌, refl, sym, ap, ◌∙◌, arith, word32,
  Option, none, some, Bool, true, false, ◌&&◌, ◌==◌, ==_iff, ==_refl, ltb, leb, add32, sub32,
  if◌then◌else◌, Bool-cases, ltb→lt, lt→ltb, le→leb, inl, inr,
}
use target_utils.Base.Run.{Run, ok, bf_sys_assert_ok}
use target_utils.Judy.Many.{JudyL, Pointer, pjerr, null, slot, value_or, Inserted, HasMemory}
use target_utils.BitUtils.{ctz}
use target_utils.Power2.{
  Allocator, free_log2_of, piece_of, set_list, round_asserts, insert_at, insert_piece, insert_loop,
  power2_allocator_insert_one_free,
}
use target_utils.Power2.Pieces.{
  pieces, pieces_of, pieces_step, pieces-later, pieces-done, not_here, free_log2_of-aligned,
  piece-half, piece_bounds,
}

-- The chunks of a range over what was there.
abbrev pub over : Option ℕ → Option ℕ → Option ℕ
over (some v) old = some v
over none old = old

-- A chunk is first or later, in either order of writing.
pub over_step :
    (v : ℕ) (t : Bool) (later old : Option ℕ)
    → (t ≡ true → later ≡ none)
    → over later (if t then some v else old) ≡ over (if t then some v else later) old
over_step v true later old h = rw (h refl) refl
over_step v false later old h = refl

module _ (judy : JudyL) where
  open judy use {Arr, lookup, jli, store, jli-Inserted, lookup-store}

  abbrev pub free_at : Allocator judy → ℕ → ℕ → Option ℕ
  free_at al l k = lookup (al.free_lists l) k

  -- What the loops on the free lists leave alone.
  pub record Kept (al al' : Allocator judy) : Type 0 where
    pub max_size : al'.max_size ≡ al.max_size
    pub total_size : al'.total_size ≡ al.total_size
    pub no_free_lists : al'.no_free_lists ≡ al.no_free_lists
    pub inuse_list : al'.inuse_list ≡ al.inuse_list

  pub Kept-refl : (a : Allocator judy) → Kept a a
  Kept-refl a = record {
    max_size = refl;
    total_size = refl;
    no_free_lists = refl;
    inuse_list = refl;
  }

  pub Kept-set_list : (al : Allocator judy) (log2 : ℕ) (b : Arr) → Kept al (set_list judy al log2 b)
  Kept-set_list al log2 b = record {
    max_size = refl;
    total_size = refl;
    no_free_lists = refl;
    inuse_list = refl;
  }

  pub Kept-trans : (a b c : Allocator judy) → Kept a b → Kept b c → Kept a c
  Kept-trans a b c h k = record {
    max_size = k.max_size ∙ h.max_size;
    total_size = k.total_size ∙ h.total_size;
    no_free_lists = k.no_free_lists ∙ h.no_free_lists;
    inuse_list = k.inuse_list ∙ h.inuse_list;
  }

  -- The call returned 0, and the free entries are those of `f`; else nothing changed.
  abbrev pub Frees : Allocator judy → (ℕ → ℕ → Option ℕ) → Run (Allocator judy × ℕ) → Type 0
  Frees al f run =
      (al' : Allocator judy) × (run ≡ ok (al', 0))
      × Kept al al'
      × ((l k : ℕ) → free_at al' l k ≡ f l k)

  -- A list written at one index.
  pub free_at-set_list :
      (al : Allocator judy) (log2 cur : ℕ) (b : Arr) (v : Option ℕ)
      → ((k : ℕ) → lookup b k ≡ (if cur == k then v else free_at al log2 k))
      → (l k : ℕ)
      → free_at (set_list judy al log2 b) l k
        ≡ (if log2 == l && cur == k then v else free_at al l k)
  free_at-set_list al log2 cur b v h l k = by_test (log2 == l) (==_iff log2 l).0
    where
      by_test :
          (c : Bool)
          → (c ≡ true → log2 ≡ l)
          → lookup (if c then b else al.free_lists l) k
            ≡ (if c && cur == k then v else free_at al l k)
      by_test true e = rw (← e refl) (h k)
      by_test false e = refl

  module _ (asserts : Bool) where
    pub round_asserts_ok :
        (fl cur : ℕ)
        → (cur % 2 ^ fl ≡ 0) × (ctz (2 ^ fl) ≤ ctz cur) × (fl < 32)
        → round_asserts judy asserts fl cur ≡ ok tt
    round_asserts_ok fl cur h =
        rw
          (
            bf_sys_assert_ok asserts (ltb fl 32) (lt→ltb fl 32 h.2),
            bf_sys_assert_ok asserts (cur % 2 ^ fl == 0) ((==_iff _ 0).1 h.0),
            bf_sys_assert_ok asserts (leb (ctz (2 ^ fl)) (ctz cur)) (le→leb _ _ h.1),
          )
          refl

    module _ (memory : HasMemory judy) (al : Allocator judy) (cur rem : ℕ)
        (lists : 0 < al.no_free_lists) (few : al.no_free_lists ≤ 32) (pos : 0 < rem)
        (fits : cur + rem < word32) where
      abbrev fl : ℕ
      fl = free_log2_of al.no_free_lists cur rem

      half_ok : (if ltb rem (2 ^ fl) then ltb (2 ^ fl / 2) rem else true) ≡ true
      half_ok = elim (Bool-cases (ltb rem (2 ^ fl))) [
        | inl short ↦
            rw short (
              lt→ltb _ _
                (piece-half al.no_free_lists cur rem lists few pos fits (ltb→lt _ _ short)))
        | inr full ↦ rw full refl
      ]

      insert_at_lem :
          (a : Arr) (p : Pointer)
          → p ≢ pjerr
          → Inserted (lookup (al.free_lists fl)) cur (lookup a) p
          → lookup (al.free_lists fl) cur ≡ none
          → Frees al
              (λ l k. if fl == l && cur == k then some (piece_of fl rem) else free_at al l k)
              (insert_at judy asserts al fl rem (a, p))
      insert_at_lem a pjerr h t e = absurd (h refl)
      insert_at_lem a null h t e = absurd t
      insert_at_lem a (slot i v) h (same, read, t) e =
          let new : v ≡ 0 = read ∙ ap (λ o. value_or o 0) e in
          let there : lookup a i ≡ some v = t i ∙ rw (same, ==_refl cur) refl in
          let piece = piece_of fl rem in
          (
            set_list judy al fl (store a i piece),
            rw
                (
                  bf_sys_assert_ok asserts (v == 0) ((==_iff v 0).1 new),
                  bf_sys_assert_ok asserts _ half_ok,
                )
                refl,
            Kept-set_list al fl _,
            free_at-set_list al fl cur (store a i piece) (some piece) (λ k.
                lookup-store a i piece k (rw there (λ q. cc)) ∙ rw same (ground (arith, t k))),
          )

      pub insert_piece_lem :
          lookup (al.free_lists fl) cur ≡ none
          → Frees al
              (λ l k. if fl == l && cur == k then some (piece_of fl rem) else free_at al l k)
              (insert_piece judy asserts al cur rem)
      insert_piece_lem e =
          rw
            (round_asserts_ok fl cur
              (free_log2_of-aligned al.no_free_lists cur rem lists few pos fits))
            (insert_at_lem _ _ (memory (al.free_lists fl) cur).0
              (jli-Inserted (al.free_lists fl) cur) e)

    insert_loop_step :
        (fuel : ℕ) (al al' : Allocator judy) (cur rem : ℕ)
        → 0 < rem
        → let piece = piece_of (free_log2_of al.no_free_lists cur rem) rem in
          cur + piece < word32
          → piece ≤ rem
          → rem < word32
          → insert_piece judy asserts al cur rem ≡ ok (al', 0)
          → insert_loop judy asserts (suc fuel) al cur rem
            ≡ insert_loop judy asserts fuel al' (cur + piece) (rem - piece)
    unfolding insert_loop
    insert_loop_step fuel al al' cur rem pos fits le small run =
        let more : (rem == 0) ≡ false = ground arith in
        let piece = piece_of (free_log2_of al.no_free_lists cur rem) rem in
        let cur' : add32 cur piece ≡ cur + piece = omega arith in
        let rem' : sub32 rem piece ≡ rem - piece = omega arith in
        rw (more, insert_loop, run, cur', rem') refl

    insert_loop_lem :
        HasMemory judy
        → (fuel : ℕ) (al : Allocator judy) (cur rem : ℕ) → 0 < al.no_free_lists
        → al.no_free_lists ≤ 32
        → rem < fuel
        → cur + rem < word32
        → ((l k : ℕ) → cur ≤ k → k < cur + rem → free_at al l k ≡ none)
        → Frees al
            (λ l k. over (pieces fuel al.no_free_lists cur rem l k) (free_at al l k))
            (insert_loop judy asserts fuel al cur rem)
    insert_loop_lem memory zero al cur rem lists few enough fits free = absurd (omega arith)
    insert_loop_lem memory (suc fuel) al cur rem lists few enough fits free =
        elim (Bool-cases (rem == 0)) [
          | inl done ↦ (
            al,
            unfold insert_loop in (rw (done, insert_loop) refl),
            Kept-refl al,
            λ l k. rw (pieces-done fuel al.no_free_lists cur rem l k ((==_iff rem 0).0 done)) refl,
          )
          | inr more ↦
              let pos : 0 < rem = ground arith in
              let nfl = al.no_free_lists in
              let piece = piece_of (free_log2_of nfl cur rem) rem in
              let b = piece_bounds nfl cur rem lists few pos fits in
              let (al', run, kept, content) =
                insert_piece_lem memory al cur rem lists few pos fits
                  (free _ cur (omega arith) (omega arith)) in
              let same_lists : al'.no_free_lists ≡ nfl = kept.no_free_lists in
              let (al'', run', kept', content') =
                insert_loop_lem memory fuel al' (cur + piece) (rem - piece) (omega arith)
                  (omega arith) (omega (arith, b)) (omega (arith, b))
                  (λ l k p q.
                    content l k
                    ∙ ap (λ c. if c then some piece else free_at al l k)
                        (not_here (free_log2_of nfl cur rem == l) cur k (omega (arith, b)))
                    ∙ free l k (omega arith) (omega (arith, b))) in
              (
                al'',
                insert_loop_step fuel al al' cur rem pos (omega (arith, b)) b.1 (omega arith) run
                    ∙ run',
                Kept-trans al al' al'' kept kept',
                λ l k.
                    content' l k
                    ∙ ap
                        (λ n.
                          over (pieces fuel n (cur + piece) (rem - piece) l k) (free_at al' l k))
                        same_lists
                    ∙ ap (λ o. over (pieces fuel nfl (cur + piece) (rem - piece) l k) o)
                        (content l k)
                    ∙ over_step piece (free_log2_of nfl cur rem == l && cur == k) _ (free_at al l k)
                        (pieces-later fuel nfl cur rem l k lists few pos fits)
                    ∙ ap (λ o. over o (free_at al l k))
                        (sym (pieces_step fuel nfl cur rem l k pos)),
              )
        ]

    -- As long as memory does not run out, on an allocator of 1 to 32 free lists and a range below
    -- 2^32 with no free entry in it, `power2_allocator_insert_one_free` fails no assertion, ends,
    -- and returns 0; the chunks of the range are then in the free lists over what was there, and
    -- nothing else changed.
    pub power2_allocator_insert_one_free_lem :
        HasMemory judy
        → (al : Allocator judy) (cur rem : ℕ) → 0 < al.no_free_lists
        → al.no_free_lists ≤ 32
        → cur + rem < word32
        → ((l k : ℕ) → cur ≤ k → k < cur + rem → free_at al l k ≡ none)
        → Frees al
            (λ l k. over (pieces_of al.no_free_lists cur rem l k) (free_at al l k))
            (power2_allocator_insert_one_free judy asserts al cur rem)
    unfolding power2_allocator_insert_one_free
    power2_allocator_insert_one_free_lem memory al cur rem lists few fits free =
        insert_loop_lem memory (suc rem) al cur rem lists few (omega arith) fits free
