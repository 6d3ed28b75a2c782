-- ===== src/Power2/Create.antt =====
-- `power2_allocator_create` of src/power2_allocator/power2_allocator.c: a new allocator is valid.
use native.Mathlib.Nat.{one-le-pow, pow-le-pow_right}
use mathlib.Core.Path.{subst}
use target_utils.Base.{
  ℕ, zero, suc, ◌+◌, ◌-◌, ◌*◌, ◌^◌, ◌≤◌, ◌<◌, ◌≡◌, refl, sym, ap, ◌∙◌, arith, minus_one, word32,
  mul32, add32, Bool, true, false, ◌&&◌, Option, none, some, ltb, ◌==◌, if◌then◌else◌, Bool-cases,
  inl, inr,
}
use target_utils.Base.Run.{Run, ok, Returns, ◌>>=◌}
use target_utils.BitUtils.{log2_uint32_ceil, is_uint32_power2}
use target_utils.BitUtils.Log.{log2_uint32_ceil_least, pow_lt_inv}
use target_utils.BitUtils.Power.{is_uint32_power2_iff}
use target_utils.BitUtils.Trailing.{ctz_greatest}
use target_utils.Judy.Many.{JudyL, HasMemory}
use target_utils.Power2.{Allocator, free_log2_of, piece_of, power2_allocator_insert_one_free}
use target_utils.Power2.Calls.{create_loop, power2_allocator_create}
use target_utils.Power2.Pieces.{pieces_of, not_here, some_ne_none}
use target_utils.Power2.Insert.{
  over, over_step, free_at, Kept, Kept-refl, Kept-trans, power2_allocator_insert_one_free_lem,
}
use target_utils.Power2.Cut.{pieces_of_step, pieces_of-zero, pieces_of_out, log_le_ceil}
use target_utils.Power2.Align.{IsMultiple}
use target_utils.Power2.Valid.{IsGap, IsValid, blocks_of}

-- The first chunk of an aligned range is a whole one of the last list.
module _ (t : ℕ) (few : t < 32) where
  abbrev size : ℕ
  size = 2 ^ t

  size_pos : 0 < size
  size_pos = one-le-pow t 2 (omega arith)

  size_small : size < word32
  size_small =
      let top = pow-le-pow_right {n = 2} (omega arith) {i = t} {j = 31} (omega arith) in omega arith

  whole_log :
      (cur rem : ℕ)
      → IsMultiple t cur
      → size ≤ rem
      → cur + rem < word32
      → free_log2_of (t + 1) cur rem ≡ t
  unfolding free_log2_of
  whole_log cur rem (q, aligned) le h =
      let pos = size_pos in
      let tz = ctz_greatest cur t q (omega arith) (omega arith) aligned in
      let log =
        log_le_ceil (t + 1) (omega arith) (omega arith) t rem (omega arith) (omega arith) le in
      ground (arith, tz, log)

  whole_chunk :
      (cur rem l k : ℕ)
      → IsMultiple t cur
      → size ≤ rem
      → cur + rem < word32
      → pieces_of (t + 1) cur rem l k ≡ (
          if t == l && cur == k then some size else pieces_of (t + 1) (cur + size) (rem - size) l k)
  whole_chunk cur rem l k aligned le h =
      let log = whole_log cur rem aligned le h in
      let pos = size_pos in
      let long : ltb rem size ≡ false = ground arith in
      let piece : piece_of (free_log2_of (t + 1) cur rem) rem ≡ size =
        ap (λ n. piece_of n rem) log ∙ ap (λ b. if b then rem else size) long in
      pieces_of_step (t + 1) (omega arith) (omega arith) cur rem l k (omega arith) h
      ∙ ap
          (λ n.
            if n == l && cur == k
            then some (piece_of (free_log2_of (t + 1) cur rem) rem)
            else pieces_of (t + 1) (cur + piece_of (free_log2_of (t + 1) cur rem) rem)
                (rem - piece_of (free_log2_of (t + 1) cur rem) rem) l k)
          log
      ∙ ap (λ n. if t == l && cur == k then some n else pieces_of (t + 1) (cur + n) (rem - n) l k)
          piece

  one_chunk :
      (cur l k : ℕ)
      → IsMultiple t cur
      → cur + size < word32
      → pieces_of (t + 1) cur size l k ≡ (if t == l && cur == k then some size else none)
  one_chunk cur l k aligned h =
      let none_left : size - size ≡ 0 = omega arith in
      whole_chunk cur size l k aligned (omega arith) h
      ∙ ap (λ n. if t == l && cur == k then some size else pieces_of (t + 1) (cur + size) n l k)
          none_left
      ∙ ap (λ o. if t == l && cur == k then some size else o)
          (pieces_of-zero (t + 1) (omega arith) (omega arith) (cur + size) l k)

module _ (judy : JudyL) (asserts : Bool) (memory : HasMemory judy) (t : ℕ) (few : t < 32) where
  create_loop_step :
      (n cur : ℕ) (al al' : Allocator judy)
      → power2_allocator_insert_one_free judy asserts al cur (2 ^ t) ≡ ok (al', 0)
      → cur + 2 ^ t < word32
      → create_loop judy asserts (suc n) cur (2 ^ t) al
        ≡ create_loop judy asserts n (cur + 2 ^ t) (2 ^ t) al'
  unfolding create_loop
  create_loop_step n cur al al' run h =
      let no_wrap : add32 cur (2 ^ t) ≡ cur + 2 ^ t = omega arith in
      ap (λ r. do (al', rc) ← r; create_loop judy asserts n (add32 cur (2 ^ t)) (2 ^ t) al') run
      ∙ ap (λ c. create_loop judy asserts n c (2 ^ t) al') no_wrap

  create_loop-Cut :
      (n cur : ℕ) (al : Allocator judy)
      → al.no_free_lists ≡ t + 1
      → IsMultiple t cur
      → cur + n * 2 ^ t < word32
      → ((l k : ℕ) → cur ≤ k → free_at judy al l k ≡ none)
      → Returns (create_loop judy asserts n cur (2 ^ t) al) (λ al'.
        Kept judy al al'
        × ((l k : ℕ)
            → free_at judy al' l k
              ≡ over (pieces_of (t + 1) cur (n * 2 ^ t) l k) (free_at judy al l k)))
  unfolding create_loop
  create_loop-Cut zero cur al lists aligned h free = (
    al,
    refl,
    (
      Kept-refl judy al,
      λ l k.
          let nothing : 0 ≡ 0 * 2 ^ t = omega arith in
          ap (λ o. over o (free_at judy al l k))
            (sym (pieces_of-zero (t + 1) (omega arith) (omega arith) cur l k)
              ∙ ap (λ n. pieces_of (t + 1) cur n l k) nothing),
    ),
  )
  create_loop-Cut (suc n) cur al lists (q, aligned) h free =
      let pos = size_pos t few in
      let (al₁, run₁, kept₁, content₁) =
        power2_allocator_insert_one_free_lem judy asserts memory al cur (2 ^ t) (omega arith)
          (omega arith) (omega arith) (λ l k p q. free l k p) in
      let content = λ (l k : ℕ).
        content₁ l k
        ∙ ap (λ m. over (pieces_of m cur (2 ^ t) l k) (free_at judy al l k)) lists
        ∙ ap (λ o. over o (free_at judy al l k))
            (one_chunk t few cur l k (q, aligned) (omega arith))
        ∙ over_one (t == l && cur == k) (2 ^ t) (free_at judy al l k) in
      let (al₂, run₂, (kept₂, content₂)) =
        create_loop-Cut n (cur + 2 ^ t) al₁ (kept₁.no_free_lists ∙ lists) (q + 1, omega arith)
          (omega arith) (λ l k p. content l k ∙ elsewhere (t == l) l k p) in
      (
        al₂,
        create_loop_step n cur al al₁ run₁ (omega arith) ∙ run₂,
        (
          Kept-trans judy al al₁ al₂ kept₁ kept₂,
          λ l k.
              content₂ l k
              ∙ ap (over (pieces_of (t + 1) (cur + 2 ^ t) (n * 2 ^ t) l k)) (content l k)
              ∙ over_step (2 ^ t) (t == l && cur == k) _ (free_at judy al l k) (λ here.
                pieces_of_out (t + 1) (omega arith) (omega arith) (cur + 2 ^ t) (n * 2 ^ t) l k
                  (omega arith) (inl (at_start l k here)))
              ∙ ap (λ o. over o (free_at judy al l k)) (sym (split l k)),
        ),
      )
    where
      elsewhere :
          (c : Bool) (l k : ℕ)
          → cur + 2 ^ t ≤ k
          → (if c && cur == k then some (2 ^ t) else free_at judy al l k) ≡ none
      elsewhere c l k p =
          let pos = size_pos t few in
          ap (λ b. if b then some (2 ^ t) else free_at judy al l k) (not_here c cur k (omega arith))
          ∙ free l k (omega arith)

      at_start : (l k : ℕ) → (t == l && cur == k) ≡ true → k < cur + 2 ^ t
      at_start l k here =
          let pos = size_pos t few in let same : cur ≡ k = ground arith in omega arith

      split :
          (l k : ℕ)
          → pieces_of (t + 1) cur (suc n * 2 ^ t) l k ≡ (
              if t == l && cur == k
              then some (2 ^ t)
              else pieces_of (t + 1) (cur + 2 ^ t) (n * 2 ^ t) l k)
      split l k =
          let left : suc n * 2 ^ t - 2 ^ t ≡ n * 2 ^ t = omega arith in
          whole_chunk t few cur (suc n * 2 ^ t) l k (q, aligned) (omega arith) (omega arith)
          ∙ ap
              (λ r.
                if t == l && cur == k then some (2 ^ t) else pieces_of (t + 1) (cur + 2 ^ t) r l k)
              left

      over_one :
          (c : Bool) (v : ℕ) (old : Option ℕ)
          → over (if c then some v else none) old ≡ (if c then some v else old)
      over_one true v old = refl
      over_one false v old = refl

module _ (judy : JudyL) (asserts : Bool) where
  -- An allocator before its loop.
  abbrev blank : ℕ → ℕ → Allocator judy
  blank size count = record {
    max_size = size;
    total_size = mul32 size count;
    no_free_lists = log2_uint32_ceil size + 1;
    free_lists = λ l. judy.empty;
    inuse_list = judy.empty;
  }

  -- What `power2_allocator_create` does once it has its memory.
  abbrev looped : ℕ → ℕ → Run (Option (Allocator judy))
  looped size count = do al ← create_loop judy asserts count 0 size (blank size count); ok (some al)

  -- A valid allocator with no block in use.
  abbrev pub IsNew : ℕ → ℕ → Allocator judy → Type 0
  IsNew size count al =
      IsValid judy al
      × (al.max_size ≡ size)
      × (al.total_size ≡ size * count)
      × ((k : ℕ) → blocks_of judy al k ≡ none)

  -- The size is a power of two, and both allocations of memory succeed.
  abbrev pub IsServed : Bool → Bool → ℕ → Type 0
  IsServed allocator_ok lists_ok size =
      ((t : ℕ) × (size ≡ 2 ^ t)) × (allocator_ok ≡ true) × (lists_ok ≡ true)

  -- A new allocator where the call is served, and else NULL.
  abbrev pub Created : Bool → Bool → ℕ → ℕ → Option (Allocator judy) → Type 0
  Created allocator_ok lists_ok size count o =
      (IsServed allocator_ok lists_ok size
        → (al : Allocator judy) × (o ≡ some al) × IsNew size count al)
      × (¬ IsServed allocator_ok lists_ok size → o ≡ none)

  module _ (memory : HasMemory judy) (t : ℕ) (few : t < 32) (count : ℕ)
      (below : 2 ^ t * count < minus_one) (within : 2 ^ t * count + 2 ^ t ≤ word32) where
    exact_log : log2_uint32_ceil (2 ^ t) ≡ t
    exact_log =
        let pos = size_pos t few in
        let small = size_small t few in
        let top = log2_uint32_ceil_least (2 ^ t) t pos (omega arith) (omega arith) in
        let bottom =
          log_le_ceil (t + 1) (omega arith) (omega arith) t (2 ^ t) pos (omega arith)
            (omega arith) in
        omega arith

    exact_total : mul32 (2 ^ t) count ≡ 2 ^ t * count
    exact_total = omega arith

    only_gap :
        (used : ℕ → Option ℕ) (total s e : ℕ)
        → ((k : ℕ) → used k ≡ none)
        → IsGap used total s e
        → (s ≡ 0) × (e ≡ total)
    only_gap used total s e unused g = elim g.starts [
      | inr (b, v, here, ends) ↦ absurd (some_ne_none (sym here ∙ unused b))
      | inl start ↦ elim g.ends [
        | inr (v, here) ↦ absurd (some_ne_none (sym here ∙ unused e))
        | inl border ↦ (start, border)
      ]
    ]

    filled-IsNew :
        (al : Allocator judy)
        → Kept judy (blank (2 ^ t) count) al
        → ((l k : ℕ)
            → free_at judy al l k
              ≡ over
                  (pieces_of (t + 1) 0 (count * 2 ^ t) l k)
                  (free_at judy (blank (2 ^ t) count) l k))
        → IsNew (2 ^ t) count al
    filled-IsNew al kept content = (
      record {
        sized = kept.no_free_lists ∙ ap (λ n. log2_uint32_ceil n + 1) (sym kept.max_size);
        largest = omega (arith, kept.max_size, size_small t few);
        few = omega (arith, lists);
        small = omega (arith, total);
        wide = omega (arith, total, kept.max_size);
        blocks = record {
          within = λ i v h. absurd (some_ne_none (sym h ∙ unused i));
          apart = λ i v j w h h' p. absurd (some_ne_none (sym h ∙ unused i));
        };
        gaps = λ s e g l k p q.
            let (start, border) = only_gap (blocks_of judy al) al.total_size s e unused g in
            let left : 2 ^ t * count ≡ e - s = omega (arith, total) in
            free l k
            ∙ ap (λ n. pieces_of (t + 1) 0 n l k) left
            ∙ ap (λ n. pieces_of n 0 (e - s) l k) (sym lists)
            ∙ ap (λ n. pieces_of al.no_free_lists n (e - s) l k) (sym start);
        busy = λ i v h l k p q. absurd (some_ne_none (sym h ∙ unused i));
        beyond = λ l k p.
            free l k
            ∙ pieces_of_out (t + 1) (omega arith) (omega arith) 0 (2 ^ t * count) l k (omega arith)
                (inr (omega (arith, total)));
      },
      kept.max_size,
      total,
      unused,
    )
      where
        unused : (k : ℕ) → blocks_of judy al k ≡ none
        unused k = ap (λ a. judy.lookup a k) kept.inuse_list ∙ judy.lookup-empty k

        lists : al.no_free_lists ≡ t + 1
        lists = kept.no_free_lists ∙ ap (λ n. n + 1) exact_log

        total : al.total_size ≡ 2 ^ t * count
        total = kept.total_size ∙ exact_total

        over_none : (o : Option ℕ) → over o none ≡ o
        over_none none = refl
        over_none (some v) = refl

        free : (l k : ℕ) → free_at judy al l k ≡ pieces_of (t + 1) 0 (2 ^ t * count) l k
        free l k =
            let same : count * 2 ^ t ≡ 2 ^ t * count = omega arith in
            content l k
            ∙ ap (over (pieces_of (t + 1) 0 (count * 2 ^ t) l k)) (judy.lookup-empty k)
            ∙ over_none (pieces_of (t + 1) 0 (count * 2 ^ t) l k)
            ∙ ap (λ n. pieces_of (t + 1) 0 n l k) same

    create-IsNew :
        Returns
          (looped (2 ^ t) count)
          (λ o. (al : Allocator judy) × (o ≡ some al) × IsNew (2 ^ t) count al)
    create-IsNew =
        let (al, run, (kept, content)) =
          create_loop-Cut judy asserts memory t few count 0 (blank (2 ^ t) count)
            (ap (λ n. n + 1) exact_log) (0, omega arith) (omega arith)
            (λ l k p. judy.lookup-empty k) in
        (some al, ap (λ r. do al ← r; ok (some al)) run, (al, refl, filled-IsNew al kept content))

  looped-IsNew :
      HasMemory judy
      → (size count t : ℕ) → size ≡ 2 ^ t
      → size < word32
      → size * count < minus_one
      → size * count + size ≤ word32
      → Returns
          (looped size count)
          (λ o. (al : Allocator judy) × (o ≡ some al) × IsNew size count al)
  looped-IsNew memory size count t power small below within =
      let few : t < 32 = pow_lt_inv t 32 (omega arith) in
      let total : size * count ≡ 2 ^ t * count = ap (λ (n : ℕ). n * count) power in
      subst
        (λ n.
          Returns (looped n count) (λ o. (al : Allocator judy) × (o ≡ some al) × IsNew n count al))
        (sym power) (create-IsNew memory t few count (omega arith) (omega arith))

  served_test : (a b c : Bool) → (a && (b && c)) ≡ true → (a ≡ true) × (b ≡ true) × (c ≡ true)
  served_test true true true h = (refl, refl, refl)
  served_test true true false h = cc
  served_test true false c h = cc
  served_test false b c h = cc

  -- The test of the code tells whether the call is served.
  test-IsServed :
      (allocator_ok lists_ok : Bool) (size : ℕ)
      → size < word32
      → ((is_uint32_power2 size && (allocator_ok && lists_ok)) ≡ true
          → IsServed allocator_ok lists_ok size)
        × (IsServed allocator_ok lists_ok size
            → (is_uint32_power2 size && (allocator_ok && lists_ok)) ≡ true)
  test-IsServed allocator_ok lists_ok size small = (
    λ passed.
        let (power, first, second) =
          served_test (is_uint32_power2 size) allocator_ok lists_ok passed in
        ((is_uint32_power2_iff size small).0 power, first, second),
    λ served. rw ((is_uint32_power2_iff size small).1 served.0, served.1, served.2) refl,
  )

  -- As long as memory does not run out, `power2_allocator_create` for a size and a count whose
  -- total is below 2^32 - 1, where one more block would not exceed 2^32, ends: where the size is a
  -- power of two and both allocations of memory succeed, in a valid allocator of those sizes with
  -- no block in use, and else in NULL.
  pub power2_allocator_create-Created :
      HasMemory judy
      → (allocator_ok lists_ok : Bool) (size count : ℕ) → size < word32
      → size * count < minus_one
      → size * count + size ≤ word32
      → Returns
          (power2_allocator_create judy asserts allocator_ok lists_ok size count)
          (Created allocator_ok lists_ok size count)
  unfolding power2_allocator_create
  power2_allocator_create-Created memory allocator_ok lists_ok size count small below within =
      let (served, passes) = test-IsServed allocator_ok lists_ok size small in
      elim (Bool-cases (is_uint32_power2 size && (allocator_ok && lists_ok))) [
        | inr refused ↦ (
          none,
          ap (λ b. if b then looped size count else ok none) refused,
          ((λ s. absurd (let e = sym refused ∙ passes s in cc)), λ unserved. refl),
        )
        | inl passed ↦
            let (t, power) = (served passed).0 in
            let (o, run, made) = looped-IsNew memory size count t power small below within in
            (
              o,
              ap (λ b. if b then looped size count else ok none) passed ∙ run,
              ((λ s. made), λ unserved. absurd (unserved (served passed))),
            )
      ]
