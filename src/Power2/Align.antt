-- ===== src/Power2/Align.antt =====
-- Alignment to powers of two in src/power2_allocator/power2_allocator.c: multiples, and how the rest
-- of an aligned block is cut.
use native.Mathlib.Nat.{one-le-pow, mul-le-mul_right}
use target_utils.Base.{
  ℕ, zero, suc, ◌+◌, ◌-◌, ◌*◌, ◌^◌, ◌≤◌, ◌<◌, ◌≡◌, sym, ap, ◌∙◌, arith, word32, some, ◌&&◌, ◌==◌,
  ltb, if◌then◌else◌, Bool-cases, ltb→lt, ltb→le, inl, inr,
}
use target_utils.BitUtils.{ctz}
use target_utils.BitUtils.Trailing.{ctz-divides}
use target_utils.Power2.{free_log2_of, piece_of}
use target_utils.Power2.Pieces.{pieces_of, pow-split, not_here}
use target_utils.Power2.Cut.{pieces_of_step, pieces_of_out, log_le_ceil}

abbrev pub IsMultiple : ℕ → ℕ → Type 0
IsMultiple t x = (q : ℕ) × (x ≡ q * 2 ^ t)

pub IsMultiple-smaller : (a t x : ℕ) → a ≤ t → IsMultiple t x → IsMultiple a x
IsMultiple-smaller a t x h (q, e) =
    let (r, s) = pow-split a (t - a) in
    let same : t - a + a ≡ t = omega arith in
    let u : 2 ^ t ≡ r * 2 ^ a = rw same at s in (q * r, omega (arith, e, ap (λ (n : ℕ). q * n) u))

mul_step : (a b p : ℕ) → a * p < b * p → a * p + p ≤ b * p
mul_step a b p h = elim (Bool-cases (ltb a b)) [
  | inl less ↦
      let c =
        mul-le-mul_right p (let d = ltb→lt a b less in let e : suc a ≤ b = omega arith in e) in
      omega (arith, c)
  | inr more ↦ absurd (omega (arith, mul-le-mul_right p (ltb→le a b more)))
]

-- Two multiples of a power of two are that far apart.
pub IsMultiple-apart : (t x y : ℕ) → IsMultiple t x → IsMultiple t y → x < y → x + 2 ^ t ≤ y
IsMultiple-apart t x y (p, e) (q, f) h = let c = mul_step p q (2 ^ t) (omega arith) in omega arith

pub ctz-IsMultiple : (x t : ℕ) → x < word32 → t ≤ ctz x → IsMultiple t x
ctz-IsMultiple x t h le = IsMultiple-smaller t (ctz x) x le (ctz-divides x h)

-- An index inside an aligned block is less aligned than the block.
ctz-lt : (t x e : ℕ) → t ≤ 32 → x < word32 → IsMultiple t e → e < x + 2 ^ t → x < e → ctz x < t
ctz-lt t x e few h end late early = elim (Bool-cases (ltb (ctz x) t)) [
  | inl less ↦ ltb→lt (ctz x) t less
  | inr more ↦
      let a = IsMultiple-apart t x e (ctz-IsMultiple x t h (ltb→le (ctz x) t more)) end early in
      absurd (omega arith)
]

module _ (nfl : ℕ) (lists : 0 < nfl) (few : nfl ≤ 32) (t end e : ℕ) (listed : t < nfl)
    (aligned : IsMultiple t end) (within : end ≤ e) (small : e < word32) where
  -- Inside the block a chunk is as long as its index is aligned, wherever the range ends behind it.
  chunk_inside :
      (b r : ℕ)
      → b < end
      → end < b + 2 ^ t
      → end ≤ b + r
      → b + r < word32
      → (free_log2_of nfl b r ≡ ctz b) × (piece_of (ctz b) r ≡ 2 ^ ctz b) × (b + 2 ^ ctz b ≤ end)
  unfolding free_log2_of
  chunk_inside b r early late reach fits =
      let less = ctz-lt t b end (omega arith) (omega arith) aligned late early in
      let step =
        IsMultiple-apart (ctz b) b end (ctz-divides b (omega arith))
          (IsMultiple-smaller (ctz b) t end (omega arith) aligned) early in
      let room = log_le_ceil nfl lists few (ctz b) r (omega arith) (omega arith) (omega arith) in
      (ground (arith, less, room), ground (arith, step), step)

  -- What is behind an index inside the block is cut up to its end, and then from there on.
  pub block_split :
      (fuel b : ℕ)
      → end - b < fuel
      → b ≤ end
      → end < b + 2 ^ t
      → ((l k : ℕ) → k < end → pieces_of nfl b (e - b) l k ≡ pieces_of nfl b (end - b) l k)
        × ((l k : ℕ) → end ≤ k → pieces_of nfl b (e - b) l k ≡ pieces_of nfl end (e - end) l k)
  block_split zero b enough le late = absurd (omega arith)
  block_split (suc fuel) b enough le late = elim (Bool-cases (ltb b end)) [
    | inr done ↦
        let same : b ≡ end = omega (arith, ltb→le b end done) in
        (
          (λ l k p.
              pieces_of_out nfl lists few b (e - b) l k (omega arith) (inl (omega arith))
              ∙ sym
                  (pieces_of_out nfl lists few b (end - b) l k (omega arith) (inl (omega arith)))),
          λ l k p. ap (λ n. pieces_of nfl n (e - n) l k) same,
        )
    | inl more ↦
        let early = ltb→lt b end more in
        let p = one-le-pow (ctz b) 2 (omega arith) in
        let long = chunk_inside b (e - b) early late (omega arith) (omega arith) in
        let short = chunk_inside b (end - b) early late (omega arith) (omega arith) in
        let next = b + 2 ^ ctz b in
        let (front, back) = block_split fuel next (omega (arith, p)) long.2 (omega (arith, p)) in
        let long_step = λ (l k : ℕ). step b (e - b) l k (omega arith) (omega arith) long.0 long.1 in
        let rest : e - b - 2 ^ ctz b ≡ e - next = omega arith in
        let rest' : end - b - 2 ^ ctz b ≡ end - next = omega arith in
        (
          (λ l k q.
              long_step l k
              ∙ ap (λ o. if ctz b == l && b == k then some (2 ^ ctz b) else o)
                  (ap (λ n. pieces_of nfl next n l k) rest
                    ∙ front l k q
                    ∙ ap (λ n. pieces_of nfl next n l k) (sym rest'))
              ∙ sym (step b (end - b) l k (omega arith) (omega arith) short.0 short.1)),
          λ l k q.
              long_step l k
              ∙ ap (λ c. if c then some (2 ^ ctz b) else pieces_of nfl next (e - b - 2 ^ ctz b) l k)
                  (not_here (ctz b == l) b k (omega arith))
              ∙ ap (λ n. pieces_of nfl next n l k) rest
              ∙ back l k q,
        )
  ]
    where
      step :
          (b r l k : ℕ)
          → 0 < r
          → b + r < word32
          → free_log2_of nfl b r ≡ ctz b
          → piece_of (ctz b) r ≡ 2 ^ ctz b
          → pieces_of nfl b r l k ≡ (
              if ctz b == l && b == k
              then some (2 ^ ctz b)
              else pieces_of nfl (b + 2 ^ ctz b) (r - 2 ^ ctz b) l k)
      step b r l k pos h log size =
          pieces_of_step nfl lists few b r l k pos h
          ∙ ap
              (λ n.
                if n == l && b == k
                then some (piece_of n r)
                else pieces_of nfl (b + piece_of n r) (r - piece_of n r) l k)
              log
          ∙ ap (λ n. if ctz b == l && b == k then some n else pieces_of nfl (b + n) (r - n) l k)
              size
