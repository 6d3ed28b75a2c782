-- ===== src/Power2/Cut.antt =====
-- Cuts of src/power2_allocator/power2_allocator.c compared: of a range, of what is in front of one of
-- its chunks, and of what is behind it.
use native.Mathlib.Nat.{pow-suc}
use target_utils.Base.{
  ℕ, zero, suc, ◌+◌, ◌-◌, ◌^◌, ◌≤◌, ◌<◌, ◌≡◌, refl, sym, ap, ◌∙◌, arith, word32, none, some, false,
  ◌&&◌, ◌==◌, ==_iff, ltb, if◌then◌else◌, Bool-cases, Option-cases, ◌⊎◌, inl, inr,
}
use target_utils.BitUtils.{log2_uint32_ceil}
use target_utils.BitUtils.Log.{log2_uint32_ceil_bounds, log2_uint32_ceil_least, pow_lt_inv}
use target_utils.Power2.{free_log2_of, piece_of}
use target_utils.Power2.Pieces.{
  pieces, pieces_of, pieces_step, pieces-done, pieces-inside, piece_bounds, not_here, some_ne_none,
}

module _ (nfl : ℕ) (lists : 0 < nfl) (few : nfl ≤ 32) where
  abbrev log_at : ℕ → ℕ → ℕ
  log_at cur rem = free_log2_of nfl cur rem

  abbrev piece_at : ℕ → ℕ → ℕ
  piece_at cur rem = piece_of (log_at cur rem) rem

  -- Fuel beyond the range makes no difference.
  pieces_fuel :
      (f g cur rem l k : ℕ)
      → rem < f
      → rem < g
      → cur + rem < word32
      → pieces f nfl cur rem l k ≡ pieces g nfl cur rem l k
  pieces_fuel zero g cur rem l k p q h = absurd (omega arith)
  pieces_fuel (suc f) zero cur rem l k p q h = absurd (omega arith)
  pieces_fuel (suc f) (suc g) cur rem l k p q h = elim (Bool-cases (rem == 0)) [
    | inl done ↦
        let e = (==_iff rem 0).0 done in
        pieces-done f nfl cur rem l k e ∙ sym (pieces-done g nfl cur rem l k e)
    | inr more ↦
        let pos : 0 < rem = ground arith in
        let b = piece_bounds nfl cur rem lists few pos h in
        let piece = piece_at cur rem in
        pieces_step f nfl cur rem l k pos
        ∙ ap (λ o. if log_at cur rem == l && cur == k then some piece else o)
            (pieces_fuel f g (cur + piece) (rem - piece) l k (omega (arith, b)) (omega (arith, b))
              (omega (arith, b)))
        ∙ sym (pieces_step g nfl cur rem l k pos)
  ]

  -- One round of the cut.
  pub pieces_of_step :
      (cur rem l k : ℕ)
      → 0 < rem
      → cur + rem < word32
      → let piece = piece_of (free_log2_of nfl cur rem) rem in
        pieces_of nfl cur rem l k ≡ (
          if free_log2_of nfl cur rem == l && cur == k
          then some piece
          else pieces_of nfl (cur + piece) (rem - piece) l k)
  pieces_of_step cur rem l k pos h =
      let b = piece_bounds nfl cur rem lists few pos h in
      let piece = piece_at cur rem in
      pieces_step rem nfl cur rem l k pos
      ∙ ap (λ o. if log_at cur rem == l && cur == k then some piece else o)
          (pieces_fuel rem (suc (rem - piece)) (cur + piece) (rem - piece) l k (omega (arith, b))
            (omega arith) (omega (arith, b)))

  pub pieces_of-zero : (cur l k : ℕ) → pieces_of nfl cur 0 l k ≡ none
  pieces_of-zero cur l k = pieces-done 0 nfl cur 0 l k refl

  -- Nothing is cut out of a range outside it.
  pub pieces_of_out :
      (cur rem l k : ℕ)
      → cur + rem < word32
      → (k < cur) ⊎ (cur + rem ≤ k)
      → pieces_of nfl cur rem l k ≡ none
  pieces_of_out cur rem l k h out = elim (Option-cases (pieces_of nfl cur rem l k)) [
    | inl gone ↦ gone
    | inr (v, here) ↦
        let b =
          pieces-inside _ nfl cur rem l k lists few h (λ q. absurd (some_ne_none (sym here ∙ q))) in
        absurd (ground (arith, b, out))
  ]

  pub ceil_mono : (x y : ℕ) → 0 < x → x ≤ y → y < word32 → log2_uint32_ceil x ≤ log2_uint32_ceil y
  ceil_mono x y p h small =
      let b = log2_uint32_ceil_bounds y (omega arith) small in
      log2_uint32_ceil_least x (log2_uint32_ceil y) p (omega arith) (omega (arith, b.0))

  pub log_le_ceil : (t x : ℕ) → 0 < x → x < word32 → 2 ^ t ≤ x → t ≤ log2_uint32_ceil x
  log_le_ceil t x p h full =
      let b = log2_uint32_ceil_bounds x p h in
      let c = pow-suc 2 (log2_uint32_ceil x) in
      let u = pow_lt_inv t (suc (log2_uint32_ceil x)) (omega (arith, b.0, c)) in omega (arith, u)

  -- A chunk that does not reach the end of the shorter of two ranges is cut out of both.
  pub log_same :
      (cur d r : ℕ)
      → 0 < d
      → d ≤ r
      → cur + r < word32
      → 2 ^ free_log2_of nfl cur r ≤ d
      → free_log2_of nfl cur d ≡ free_log2_of nfl cur r
  unfolding free_log2_of
  log_same cur d r pos le h full =
      let mono = ceil_mono d r pos le (omega arith) in
      let reach : free_log2_of nfl cur r ≤ log2_uint32_ceil d =
        log_le_ceil (free_log2_of nfl cur r) d pos (omega arith) full in
      ground (arith, mono, reach)

  -- The range up to `s + d`, past the start `c` of a chunk, is cut in front of that chunk as the
  -- whole range is, and from there on as the range from `c` on.
  abbrev pub Splits : ℕ → ℕ → ℕ → ℕ → Type 0
  Splits s r c d =
      ((l k : ℕ) → k < c → pieces_of nfl s d l k ≡ pieces_of nfl s r l k)
      × ((l k : ℕ) → c ≤ k → pieces_of nfl s d l k ≡ pieces_of nfl c (s + d - c) l k)

  split_here : (s r c d : ℕ) → s ≡ c → s + r < word32 → d ≤ r → Splits s r c d
  split_here s r c d e h within = (
    (λ l k p.
        pieces_of_out s d l k (omega arith) (inl (omega arith))
        ∙ sym (pieces_of_out s r l k h (inl (omega arith)))),
    λ l k p.
        let same : d ≡ s + d - c = omega arith in
        ap (λ n. pieces_of nfl n d l k) e ∙ ap (λ n. pieces_of nfl c n l k) same,
  )

  split_later :
      (s r c d : ℕ)
      → 0 < r
      → s + r < word32
      → s + piece_of (free_log2_of nfl s r) r ≤ c
      → c < s + r
      → c ≤ s + d
      → d ≤ r
      → let piece = piece_of (free_log2_of nfl s r) r in
        Splits (s + piece) (r - piece) c (d - piece) → Splits s r c d
  split_later s r c d pos h later inside behind within (front, back) =
      let piece = piece_at s r in
      let b = piece_bounds nfl s r lists few pos h in
      let some_left : 0 < d = omega (arith, b) in
      let short : ltb r (2 ^ log_at s r) ≡ false = ground (arith, later, inside) in
      let full : piece ≡ 2 ^ log_at s r = ap (λ t. if t then r else 2 ^ log_at s r) short in
      let same : log_at s d ≡ log_at s r =
        log_same s d r some_left within h (omega (arith, full)) in
      let long : ltb d (2 ^ log_at s d) ≡ false = ground (arith, same, full) in
      let piece' : piece_at s d ≡ piece =
        ap (λ t. if t then d else 2 ^ log_at s d) long ∙ ap (λ n. 2 ^ n) same ∙ sym full in
      let step = λ (l k : ℕ).
        pieces_of_step s d l k some_left (omega arith)
        ∙ ap
            (λ n.
              if n == l && s == k
              then some (piece_at s d)
              else pieces_of nfl (s + piece_at s d) (d - piece_at s d) l k)
            same
        ∙ ap (λ n. if log_at s r == l && s == k then some n else pieces_of nfl (s + n) (d - n) l k)
            piece' in
      (
        (λ l k p.
            step l k
            ∙ ap (λ o. if log_at s r == l && s == k then some piece else o) (front l k p)
            ∙ sym (pieces_of_step s r l k pos h)),
        λ l k p.
            let other : (log_at s r == l && s == k) ≡ false =
              not_here (log_at s r == l) s k (omega (arith, b)) in
            let size : s + piece + (d - piece) - c ≡ s + d - c = omega (arith, b) in
            step l k
            ∙ ap (λ t. if t then some piece else pieces_of nfl (s + piece) (d - piece) l k) other
            ∙ back l k p
            ∙ ap (λ n. pieces_of nfl c n l k) size,
      )

  -- A chunk of a range: its list and size, and how the range splits there.
  abbrev pub IsChunk : ℕ → ℕ → ℕ → ℕ → ℕ → Type 0
  IsChunk s r l c v =
      (s ≤ c)
      × (c < s + r)
      × (l ≡ free_log2_of nfl c (s + r - c))
      × (v ≡ piece_of l (s + r - c))
      × ((d : ℕ) → c ≤ s + d → d ≤ r → Splits s r c d)

  pub pieces-IsChunk :
      (fuel s r l c v : ℕ) → s + r < word32 → pieces fuel nfl s r l c ≡ some v → IsChunk s r l c v
  unfolding pieces
  pieces-IsChunk zero s r l c v h there = absurd (some_ne_none (sym there))
  pieces-IsChunk (suc fuel) s r l c v h there = elim (Bool-cases (r == 0)) [
    | inl done ↦
        absurd (some_ne_none (sym there ∙ pieces-done fuel nfl s r l c ((==_iff r 0).0 done)))
    | inr more ↦
        let pos : 0 < r = ground arith in
        let piece = piece_at s r in
        let b = piece_bounds nfl s r lists few pos h in
        let rest = pieces fuel nfl (s + piece) (r - piece) l c in
        let step : (if log_at s r == l && s == c then some piece else rest) ≡ some v =
          sym (pieces_step fuel nfl s r l c pos) ∙ there in
        elim (Bool-cases (log_at s r == l && s == c)) [
          | inl here ↦
              let at_start : s ≡ c = ground (arith, here) in
              let log : log_at s r ≡ l = ground (arith, here) in
              let found : some piece ≡ some v =
                sym (ap (λ t. if t then some piece else rest) here) ∙ step in
              let size : v ≡ piece = cc in
              let left : r ≡ s + r - c = omega arith in
              (
                omega arith,
                omega arith,
                sym log ∙ ap (λ n. log_at n r) at_start ∙ ap (log_at c) left,
                size ∙ ap (λ n. piece_of n r) log ∙ ap (piece_of l) left,
                λ d p q. split_here s r c d at_start h q,
              )
          | inr later ↦
              let (from, inside, log, size, split) =
                pieces-IsChunk fuel (s + piece) (r - piece) l c v (omega (arith, b))
                  (sym (ap (λ t. if t then some piece else rest) later) ∙ step) in
              let left : s + piece + (r - piece) - c ≡ s + r - c = omega (arith, b) in
              (
                omega arith,
                omega (arith, b),
                log ∙ ap (log_at c) left,
                size ∙ ap (piece_of l) left,
                λ d p q.
                    split_later s r c d pos h from (omega (arith, b)) p q
                      (split (d - piece) (omega arith) (omega arith)),
              )
        ]
  ]
