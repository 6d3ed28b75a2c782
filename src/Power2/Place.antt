-- ===== src/Power2/Place.antt =====
-- Where `power2_allocator_alloc` of src/power2_allocator/power2_allocator.c puts a block in the chunk
-- that it found, and its steps from there.
use mathlib.Core.Path.{subst}
use native.Mathlib.Nat.{one-le-pow}
use target_utils.Base.{
  ℕ, zero, suc, ◌+◌, ◌-◌, ◌/◌, ◌%◌, ◌^◌, ◌≤◌, ◌<◌, ◌≡◌, refl, sym, ap, ◌∙◌, arith, word32, Bool,
  true, false, add32, sub32, ltb, leb, ltb→lt, ltb→le, le→leb, if◌then◌else◌, Bool-cases, inl, inr,
}
use target_utils.Base.Run.{ok, bf_sys_assert_ok}
use target_utils.Judy.Many.{JudyL}
use target_utils.Power2.{Allocator, power2_allocator_insert_one_free, power2_allocator_mark_inuse}
use target_utils.Power2.Calls.{last_fit, split_at}
use target_utils.Power2.Align.{IsMultiple, IsMultiple-apart}

-- The place in the chunk: aligned, with room for the size.
pub record IsPlace (log2 size c v a : ℕ) : Type 0 where
  pub from : c ≤ a
  pub room : a + size ≤ c + v
  pub aligned : IsMultiple log2 a

round_down : (x t : ℕ) → IsMultiple t (x - x % 2 ^ t)
round_down x t = let p = one-le-pow t 2 (omega arith) in (x / 2 ^ t, omega arith)

module _ (judy : JudyL) (asserts : Bool) (log2 size c v : ℕ) (aligned : IsMultiple log2 c)
    (pos : 0 < size) (fits : size ≤ 2 ^ log2) (room : size ≤ v) (small : c + v < word32)
    (wide : c + v + size ≤ word32) where
  abbrev last : ℕ
  last = c + v - 1

  abbrev down : ℕ
  down = last - last % 2 ^ log2

  down_close : (c ≤ down) × (down ≤ last)
  down_close =
      let p = one-le-pow log2 2 (omega arith) in
      let near : last % 2 ^ log2 < 2 ^ log2 = omega arith in
      (
        elim (Bool-cases (ltb down c)) [
          | inl early ↦
              let a =
                IsMultiple-apart log2 down c (round_down last log2) aligned (ltb→lt down c early) in
              absurd (omega arith)
          | inr late ↦ ltb→le down c late
        ],
        omega arith,
      )

  place :
      (t : Bool)
      → (ltb (c + v) (down + size) ≡ t)
      → IsPlace log2 size c v (if t then down - 2 ^ log2 else down)
  place false h = record {
    from = down_close.0;
    room = ltb→le (c + v) (down + size) h;
    aligned = round_down last log2;
  }
  place true h =
      let far = ltb→lt (c + v) (down + size) h in
      let b = down_close in
      let apart = IsMultiple-apart log2 c down aligned (round_down last log2) (omega (arith, b)) in
      record {
        from = omega arith;
        room = omega (arith, b);
        aligned = one_less (round_down last log2) (omega arith);
      }
    where
      one_less : IsMultiple log2 down → 2 ^ log2 ≤ down → IsMultiple log2 (down - 2 ^ log2)
      one_less (zero, e) le = let p = one-le-pow log2 2 (omega arith) in absurd (omega (arith, e))
      one_less (suc q, e) le = (q, omega (arith, e))

  last_fit_lem :
      last_fit judy asserts log2 size c v
      ≡ (if ltb (c + v) (down + size) then sub32 down (2 ^ log2) else down)
  last_fit_lem =
      let b = down_close in
      let e₁ : add32 c v ≡ c + v = omega arith in
      let e₂ : sub32 (c + v) 1 ≡ last = omega arith in
      let e₃ : add32 down size ≡ down + size = omega (arith, b) in
      ap
        (λ n.
          let d = sub32 n 1 - sub32 n 1 % 2 ^ log2 in
          if ltb n (add32 d size) then sub32 d (2 ^ log2) else d)
        e₁
      ∙ ap
          (λ n.
            let d = n - n % 2 ^ log2 in
            if ltb (c + v) (add32 d size) then sub32 d (2 ^ log2) else d)
          e₂
      ∙ ap (λ n. if ltb (c + v) n then sub32 down (2 ^ log2) else down) e₃

  pub last_fit-IsPlace : IsPlace log2 size c v (last_fit judy asserts log2 size c v)
  last_fit-IsPlace = elim (Bool-cases (ltb (c + v) (down + size))) [
    | inr fit ↦
        subst (IsPlace log2 size c v)
          (sym (last_fit_lem ∙ ap (λ t. if t then sub32 down (2 ^ log2) else down) fit))
          (place false fit)
    | inl over ↦
        let b = down_close in
        let le : 2 ^ log2 ≤ down =
          let far = ltb→lt (c + v) (down + size) over in
          let apart =
            IsMultiple-apart log2 c down aligned (round_down last log2) (omega (arith, b)) in
          omega arith in
        let minus : sub32 down (2 ^ log2) ≡ down - 2 ^ log2 = omega (arith, b) in
        subst (IsPlace log2 size c v)
          (sym (last_fit_lem ∙ ap (λ t. if t then sub32 down (2 ^ log2) else down) over ∙ minus))
          (place true over)
  ]

-- The steps once a place is found, in a chunk that does not wrap around.
module _ (judy : JudyL) (asserts : Bool) (size c v a : ℕ) (from : c ≤ a) (room : a + size ≤ c + v)
    (small : c + v < word32) where
  pub split_at_step :
      (al al₁ al₂ al₃ : Allocator judy)
      → power2_allocator_insert_one_free judy asserts al c (a - c) ≡ ok (al₁, 0)
      → power2_allocator_insert_one_free judy asserts al₁ (a + size) (c + v - (a + size))
        ≡ ok (al₂, 0)
      → power2_allocator_mark_inuse judy asserts al₂ a size ≡ ok (al₃, 0)
      → split_at judy asserts a size al c v ≡ ok (al₃, a)
  unfolding split_at
  split_at_step al al₁ al₂ al₃ run₁ run₂ run₃ =
      let e₁ : add32 a size ≡ a + size = omega arith in
      let e₂ : add32 c v ≡ c + v = omega arith in
      let e₃ : sub32 a c ≡ a - c = omega arith in
      let e₄ : sub32 (c + v) (a + size) ≡ c + v - (a + size) = omega arith in
      rw
        (
          e₁,
          e₂,
          e₃,
          e₄,
          bf_sys_assert_ok asserts (leb c a) (le→leb c a from),
          bf_sys_assert_ok asserts (leb (a + size) (c + v)) (le→leb (a + size) (c + v) room),
          run₁,
          run₂,
          run₃,
        )
        refl
