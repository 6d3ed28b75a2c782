-- ===== src/Power2/Take.antt =====
-- The search of `power2_allocator_alloc` for a free chunk, in src/power2_allocator/power2_allocator.c:
-- `power2_allocator_remove_one_free` on one list, and the loop over the lists.
use native.Mathlib.Nat.{pow-le-pow_right}
use target_utils.Base.{
  ℕ, zero, suc, ◌+◌, ◌^◌, ◌≤◌, ◌<◌, ◌≡◌, ◌≢◌, refl, sym, ap, ◌∙◌, arith, word64, minus_one, u32,
  Option, none, some, Bool, true, false, ◌&&◌, ◌==◌, ==_iff, ltb, leb, if◌then◌else◌, Bool-cases,
  leb→le, leb→lt, le→leb, lt→leb, ◌⊎◌, inl, inr,
}
use target_utils.Base.Run.{Run, ok, ◌>>=◌, bf_sys_assert_ok}
use target_utils.Judy.Many.{JudyL, Pointer, pjerr, null, slot, IsFirst, HasMemory}
use target_utils.Power2.{
  Allocator, is_nonzero, set_list, find_fit, take_fit, power2_allocator_remove_one_free,
}
use target_utils.Power2.Calls.{take_chunk}
use target_utils.Power2.Pieces.{some_ne_none}
use target_utils.Power2.Insert.{free_at, Kept, Kept-set_list, free_at-set_list}
use target_utils.Power2.Remove.{deleted, is_nonzero_ok}

-- The first entry from `from` on that is large enough, or none is.
abbrev pub Fits : (ℕ → Option ℕ) → ℕ → ℕ → Pointer → Type 0
Fits f size from pjerr = ⊥
Fits f size from null = (k v : ℕ) → from ≤ k → f k ≡ some v → v < size
Fits f size from (slot j v) = (f j ≡ some v) × (size ≤ v)

module _ (judy : JudyL) where
  open judy use {Arr, lookup, jld, jlf, jln, jlf-IsFirst, jln-IsFirst, jld-Deleted}

  Fits-suc :
      (f : ℕ → Option ℕ) (size from i w : ℕ) (q : Pointer)
      → f i ≡ some w
      → w < size
      → ((k : ℕ) → from ≤ k → k < i → f k ≡ none)
      → Fits f size (suc i) q
      → Fits f size from q
  Fits-suc f size from i w pjerr here small between h = h
  Fits-suc f size from i w (slot j v) here small between h = h
  Fits-suc f size from i w null here small between h = λ k v p there. elim (Bool-cases (ltb k i)) [
    | inl before ↦ absurd (some_ne_none (sym there ∙ between k p (ground (arith, before))))
    | inr after ↦ elim (Bool-cases (ltb i k)) [
      | inl beyond ↦ h k v (ground (arith, beyond)) there
      | inr level ↦
          let same : i ≡ k = ground (arith, after, level) in let size : v ≡ w = cc in omega arith
    ]
  ]

  find_fit-Fits :
      (asserts : Bool) (fuel : ℕ) (a : Arr) (size total from : ℕ) (p : Pointer)
      → IsFirst (lookup a) from p
      → ((k v : ℕ) → lookup a k ≡ some v → k < total)
      → total < word64
      → from ≤ total
      → suc total < from + fuel
      → (q : Pointer) × (find_fit judy asserts fuel a size p ≡ ok q) × Fits (lookup a) size from q
  unfolding find_fit
  find_fit-Fits asserts zero a size total from p first inside wide le enough = absurd (omega arith)
  find_fit-Fits asserts (suc fuel) a size total from pjerr first inside wide le enough =
      absurd first
  find_fit-Fits asserts (suc fuel) a size total from null first inside wide le enough = (
    null,
    refl,
    λ k v p there.
        let b = inside k v there in absurd (some_ne_none (sym there ∙ first k p (omega arith))),
  )
  find_fit-Fits asserts (suc fuel) a size total from (slot i w) (above, word, here, between) inside
        wide le enough =
      elim (Bool-cases (leb size w)) [
        | inl large ↦ (slot i w, rw (large, find_fit) refl, (here, leb→le size w large))
        | inr little ↦
            let b = inside i w here in
            let (q, run, fits) =
              find_fit-Fits asserts fuel a size total (suc i) (jln a i) (jln-IsFirst a i) inside
                wide (omega arith) (omega arith) in
            (
              q,
              rw (little, find_fit) run,
              Fits-suc (lookup a) size from i w q here (leb→lt size w little) between fits,
            )
      ]

  -- No entry of a list is large enough.
  abbrev pub TooSmall : Allocator judy → ℕ → ℕ → Type 0
  TooSmall al size l = (k v : ℕ) → free_at judy al l k ≡ some v → v < size

  -- The chunk at `c` of a list was large enough, and was taken out.
  pub record Took (al : Allocator judy) (size l c v : ℕ) (al' : Allocator judy) : Type 0 where
    pub found : free_at judy al l c ≡ some v
    pub large : size ≤ v
    pub kept : Kept judy al al'
    pub content :
        (l' k : ℕ)
        → free_at judy al' l' k ≡ (if l == l' && c == k then none else free_at judy al l' k)

  -- Every free entry lies within the indexes, with its size.
  abbrev pub IsInside : Allocator judy → Type 0
  IsInside al = (l k v : ℕ) → free_at judy al l k ≡ some v → (0 < v) × (k + v ≤ al.total_size)

  module _ (asserts : Bool) (memory : HasMemory judy) (al : Allocator judy) (size : ℕ)
      (inside : IsInside al) (small : al.total_size < minus_one) where
    -- The call took a chunk out of the list, or none is large enough.
    abbrev pub Removed : ℕ → ℕ → Run (Allocator judy × ℕ × ℕ) → Type 0
    Removed l free_size run =
        ((run ≡ ok (al, minus_one, free_size)) × TooSmall al size l)
        ⊎ ((al' : Allocator judy) × (c : ℕ) × (v : ℕ) × (run ≡ ok (al', c, v))
            × (c < minus_one)
            × Took al size l c v al')

    take_fit-Removed :
        (l free_size : ℕ) (q : Pointer)
        → Fits (lookup (al.free_lists l)) size 0 q
        → Removed l free_size (take_fit judy asserts al l free_size q)
    take_fit-Removed l free_size pjerr fits = absurd fits
    take_fit-Removed l free_size null fits = inl (refl, λ k v there. fits k v (omega arith) there)
    take_fit-Removed l free_size (slot c v) (found, large) =
        let a = al.free_lists l in
        let here : lookup a c ≢ none = rw found some_ne_none in
        let b = inside l c v found in
        let c_word : u32 c ≡ c = omega (arith, b) in
        let v_word : u32 v ≡ v = omega (arith, b) in
        inr (
          set_list judy al l (jld a c).0,
          c,
          v,
          rw
              (
                bf_sys_assert_ok asserts (is_nonzero (jld a c).1)
                    (is_nonzero_ok judy asserts (lookup a) _ c _ here (jld-Deleted a c)),
                c_word,
                v_word,
              )
              refl,
          omega (arith, b),
          record {
            found = found;
            large = large;
            kept = Kept-set_list judy al l _;
            content =
                free_at-set_list judy al l c (jld a c).0 none
                  (deleted judy asserts (lookup a) _ c _ here (memory a c).1 (jld-Deleted a c));
          },
        )

    power2_allocator_remove_one_free-Removed :
        (l free_size : ℕ)
        → l < al.no_free_lists
        → size ≤ 2 ^ l
        → Removed l free_size (power2_allocator_remove_one_free judy asserts al l size free_size)
    unfolding power2_allocator_remove_one_free
    power2_allocator_remove_one_free-Removed l free_size listed fits =
        let a = al.free_lists l in
        let (q, run, good) =
          find_fit-Fits asserts (suc (suc al.total_size)) a size al.total_size 0 (jlf a 0)
            (jlf-IsFirst a 0) (λ k v there. let b = inside l k v there in omega (arith, b))
            (omega arith) (omega arith) (omega arith) in
        rw
          (
            lt→leb al.no_free_lists l listed,
            bf_sys_assert_ok asserts (leb size (2 ^ l)) (le→leb _ _ fits),
            run,
          )
          (take_fit-Removed l free_size q good)

    -- The loop took a chunk out of one of its lists, or none in them is large enough.
    abbrev pub TookFrom : ℕ → ℕ → Run (Allocator judy × ℕ × ℕ) → Type 0
    TookFrom i free_size run =
        ((run ≡ ok (al, minus_one, free_size))
          × ((l : ℕ) → i ≤ l → l < al.no_free_lists → TooSmall al size l))
        ⊎ ((al' : Allocator judy) × (l : ℕ) × (c : ℕ) × (v : ℕ) × (run ≡ ok (al', c, v))
            × (c < minus_one)
            × (i ≤ l)
            × (l < al.no_free_lists)
            × Took al size l c v al')

    pub take_chunk-TookFrom :
        (n i free_size : ℕ)
        → i + n ≡ al.no_free_lists
        → size ≤ 2 ^ i
        → TookFrom i free_size (take_chunk judy asserts n i size al free_size)
    unfolding take_chunk
    take_chunk-TookFrom zero i free_size rounds fits = inl (refl, λ l p q. absurd (omega arith))
    take_chunk-TookFrom (suc n) i free_size rounds fits =
        by_round (power2_allocator_remove_one_free judy asserts al i size free_size)
          (power2_allocator_remove_one_free-Removed i free_size (omega arith) fits)
          (take_chunk-TookFrom n (i + 1) free_size (omega arith) (
            omega
              (arith, pow-le-pow_right {n = 2} (omega arith) {i = i} {j = i + 1} (omega arith))))
      where
        rest : Allocator judy × ℕ × ℕ → Run (Allocator judy × ℕ × ℕ)
        rest (al', c, v) = elim (c == minus_one) [
          | true ↦ take_chunk judy asserts n (i + 1) size al' v
          | false ↦ ok (al', c, v)
        ]

        later :
            TooSmall al size i
            → TookFrom (i + 1) free_size (take_chunk judy asserts n (i + 1) size al free_size)
            → TookFrom i free_size (take_chunk judy asserts n (i + 1) size al free_size)
        later here (inl (run, none_there)) = inl (
          run,
          λ l p q k v there. elim (Bool-cases (i == l)) [
            | inl same ↦
                let level : i ≡ l = (==_iff i l).0 same in
                here k v (ap (λ n. free_at judy al n k) level ∙ there)
            | inr other ↦ none_there l (ground (arith, other)) q k v there
          ],
        )
        later here (inr (al', l, c, v, run, small_index, from, listed, took)) =
            inr (al', l, c, v, run, small_index, omega arith, listed, took)

        by_round :
            (r : Run (Allocator judy × ℕ × ℕ))
            → Removed i free_size r
            → TookFrom (i + 1) free_size (take_chunk judy asserts n (i + 1) size al free_size)
            → TookFrom i free_size (r >>= rest)
        by_round r (inl (run, here)) next = rw run (later here next)
        by_round r (inr (al', c, v, run, small_index, took)) next =
            let valid : (c == minus_one) ≡ false = ground arith in
            inr (
              al',
              i,
              c,
              v,
              ap (λ r. r >>= rest) run
                  ∙ ap
                      (λ t. elim t [
                        | true ↦ take_chunk judy asserts n (i + 1) size al' v
                        | false ↦ ok (al', c, v)
                      ])
                      valid,
              small_index,
              omega arith,
              omega arith,
              took,
            )
