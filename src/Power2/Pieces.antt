-- ===== src/Power2/Pieces.antt =====
-- How the loops of src/power2_allocator/power2_allocator.c cut a range into chunks: their lists,
-- alignment and places.
use mathlib.Core.Path.{ap}
use native.Mathlib.Nat.{pow-suc, one-le-pow, pow-le-pow_right, mul-mod_left}
use target_utils.Base.{
  ℕ, zero, suc, ◌+◌, ◌-◌, ◌*◌, ◌/◌, ◌%◌, ◌^◌, ◌≤◌, ◌<◌, ◌≡◌, ◌≢◌, refl, sym, ◌∙◌, arith, word32,
  Option, none, some, Bool, true, false, ◌&&◌, ◌==◌, ==_iff, if◌then◌else◌, Bool-cases,
  Option-cases, inl, inr,
}
use target_utils.BitUtils.{ctz, log2_uint32_ceil}
use target_utils.BitUtils.Log.{log2_uint32_ceil_bounds, pow_lt_inv}
use target_utils.BitUtils.Trailing.{ctz_lem, ctz-divides}
use target_utils.Power2.{free_log2_of, piece_of}

-- The free size that the loops keep in the list `l` at the index `k`, for a range.
unfoldable pub pieces : ℕ → ℕ → ℕ → ℕ → ℕ → ℕ → Option ℕ
pieces zero nfl cur rem l k = none
pieces (suc fuel) nfl cur rem l k =
    let fl = free_log2_of nfl cur rem in
    let piece = piece_of fl rem in
    let rest = pieces fuel nfl (cur + piece) (rem - piece) l k in
    if rem == 0 then none else if fl == l && cur == k then some piece else rest

-- The free sizes of a range.
abbrev pub pieces_of : ℕ → ℕ → ℕ → ℕ → ℕ → Option ℕ
pieces_of nfl cur rem = pieces (suc rem) nfl cur rem

pub some_ne_none : {v : ℕ} → some v ≢ none
some_ne_none e = cc

and_right : (a : Bool) {b : Bool} → (a && b) ≡ true → b ≡ true
and_right true h = h
and_right false h = cc

pub not_here : (a : Bool) (cur k : ℕ) → cur < k → (a && cur == k) ≡ false
not_here true cur k h = ground arith
not_here false cur k h = refl

pub pow-split : (a b : ℕ) → (r : ℕ) × (2 ^ (b + a) ≡ r * 2 ^ a)
pow-split a zero =
    (1, omega (arith, ap (λ (n : ℕ). 2 ^ n) (let e : zero + a ≡ a = omega arith in e)))
pow-split a (suc b) =
    let t = pow-split a b in
    let e : suc b + a ≡ suc (b + a) = omega arith in
    (2 * t.0, rw e (omega (arith, pow-suc 2 (b + a), t.1)))

-- A multiple of a power of two is a multiple of each smaller one.
mod-pow : (x q t a : ℕ) → a ≤ t → x ≡ q * 2 ^ t → x % 2 ^ a ≡ 0
mod-pow x q t a h e =
    let (r, s) = pow-split a (t - a) in
    let same : t - a + a ≡ t = omega arith in
    let u : 2 ^ t ≡ r * 2 ^ a = rw same at s in
    let whole : x ≡ q * r * 2 ^ a = omega (arith, e, ap (λ (n : ℕ). q * n) u) in
    rw whole (mul-mod_left (q * r) (2 ^ a))

quotient_pos : (q x y : ℕ) → 0 < x → x ≡ q * y → 0 < q
quotient_pos zero x y h e = absurd (omega arith)
quotient_pos (suc q) x y h e = omega arith

ctz-pow : (a : ℕ) → a < 32 → ctz (2 ^ a) ≤ a
ctz-pow a h =
    let pos : 0 < 2 ^ a = one-le-pow a 2 (omega arith) in
    let small : 2 ^ a ≤ 2 ^ 31 =
      pow-le-pow_right {n = 2} (omega arith) {i = a} {j = 31} (omega arith) in
    let t = ctz_lem (2 ^ a) pos (omega arith) in
    let q = t.0.0 in
    let e : 2 ^ a ≡ q * 2 ^ ctz (2 ^ a) = t.0.1 in
    let q_pos : 0 < q = quotient_pos q (2 ^ a) (2 ^ ctz (2 ^ a)) pos e in
    let below : 2 ^ ctz (2 ^ a) ≤ 2 ^ a = grind arith in
    omega (arith, pow_lt_inv (ctz (2 ^ a)) (suc a) (omega (arith, pow-suc 2 a)))

module _ (nfl cur rem : ℕ) (lists : 0 < nfl) (few : nfl ≤ 32) (pos : 0 < rem)
    (fits : cur + rem < word32) where
  abbrev fl : ℕ
  fl = free_log2_of nfl cur rem

  -- The logarithm of a chunk is that of a list, and at most those of the alignment and the rest.
  pub free_log2_of_bounds : (fl < nfl) × (fl ≤ ctz cur) × (fl ≤ log2_uint32_ceil rem)
  unfolding free_log2_of
  free_log2_of_bounds = ground arith

  cur_small : cur < word32
  cur_small = omega arith

  -- The chunk is aligned, in both of the code's forms.
  pub free_log2_of-aligned : (cur % 2 ^ fl ≡ 0) × (ctz (2 ^ fl) ≤ ctz cur) × (fl < 32)
  free_log2_of-aligned =
      let b = free_log2_of_bounds in
      let (q, e) = ctz-divides cur cur_small in
      (
        mod-pow cur q (ctz cur) fl b.1 e,
        omega (arith, b.0, b.1, ctz-pow fl (omega (arith, b.0))),
        omega (arith, b.0),
      )

  -- A chunk that the end of the range cuts short fills more than half of its power of two.
  pub piece-half : rem < 2 ^ fl → 2 ^ fl / 2 < rem
  piece-half h =
      let t = log2_uint32_ceil_bounds rem pos (omega arith) in
      let u =
        pow-le-pow_right {n = 2} (omega arith) {i = fl} {j = log2_uint32_ceil rem}
          free_log2_of_bounds.2 in
      omega (arith, t.1)

  pub piece_bounds : (0 < piece_of fl rem) × (piece_of fl rem ≤ rem)
  piece_bounds = ground (arith, one-le-pow fl 2 (omega arith))

-- A chunk lies within its range.
pub pieces-inside :
    (fuel nfl cur rem l k : ℕ)
    → 0 < nfl
    → nfl ≤ 32
    → cur + rem < word32
    → pieces fuel nfl cur rem l k ≢ none
    → (cur ≤ k) × (k < cur + rem)
unfolding pieces
pieces-inside zero nfl cur rem l k p few h t = absurd (t refl)
pieces-inside (suc fuel) nfl cur rem l k p few h t = elim (Bool-cases (rem == 0)) [
  | inl done ↦ absurd (t (rw (done, pieces) refl))
  | inr more ↦
      let pos : 0 < rem = ground arith in
      let b = piece_bounds nfl cur rem p few pos h in
      let piece = piece_of (free_log2_of nfl cur rem) rem in
      elim (Bool-cases (free_log2_of nfl cur rem == l && cur == k)) [
        | inl here ↦ let same : cur ≡ k = ground arith in omega arith
        | inr later ↦
            let u =
              pieces-inside fuel nfl (cur + piece) (rem - piece) l k p few (omega (arith, b))
                (λ e. t (rw (more, later, pieces) e)) in
            omega (arith, b)
      ]
]

-- One round of the cut.
pub pieces_step :
    (fuel nfl cur rem l k : ℕ)
    → 0 < rem
    → let fl = free_log2_of nfl cur rem in
      let piece = piece_of fl rem in
      pieces (suc fuel) nfl cur rem l k ≡ (
        if fl == l && cur == k then some piece else pieces fuel nfl (cur + piece) (rem - piece) l k)
unfolding pieces
pieces_step fuel nfl cur rem l k pos = let more : (rem == 0) ≡ false = ground arith in rw more refl

-- The later chunks of a range do not start where its first one does.
pub pieces-later :
    (fuel nfl cur rem l k : ℕ)
    → 0 < nfl
    → nfl ≤ 32
    → 0 < rem
    → cur + rem < word32
    → let fl = free_log2_of nfl cur rem in
      let piece = piece_of fl rem in
      (fl == l && cur == k) ≡ true → pieces fuel nfl (cur + piece) (rem - piece) l k ≡ none
pieces-later fuel nfl cur rem l k lists few pos fits here =
    let piece = piece_of (free_log2_of nfl cur rem) rem in
    let b = piece_bounds nfl cur rem lists few pos fits in
    elim (Option-cases (pieces fuel nfl (cur + piece) (rem - piece) l k)) [
      | inl e ↦ e
      | inr (v, e) ↦
          let u =
            pieces-inside fuel nfl (cur + piece) (rem - piece) l k lists few (omega (arith, b))
              (λ q. absurd (some_ne_none (sym e ∙ q))) in
          let same : cur ≡ k = (==_iff cur k).0 (and_right (free_log2_of nfl cur rem == l) here) in
          absurd (omega (arith, b, u, same))
    ]

pub pieces-done : (fuel nfl cur rem l k : ℕ) → rem ≡ 0 → pieces (suc fuel) nfl cur rem l k ≡ none
unfolding pieces
pieces-done fuel nfl cur rem l k e = rw ((==_iff rem 0).1 e) refl
