-- ===== src/Power2/History.antt =====
-- Histories of an allocator of src/power2_allocator/power2_allocator.c: its creation, and then calls
-- that take, give back and reserve blocks, in any order.
use mathlib.Core.Path.{subst}
use target_utils.Base.{
  Bool-cases, refl, ℕ, ◌+◌, ◌*◌, ◌≤◌, ◌<◌, ◌≡◌, sym, ap, ◌∙◌, Bool, true, Option, some, none,
  minus_one, word32, inl, inr,
}
use target_utils.Base.Run.{Run, ok}
use target_utils.Judy.Many.{JudyL, HasMemory}
use target_utils.Power2.{Allocator}
use target_utils.Power2.Calls.{
  power2_allocator_create, power2_allocator_alloc, power2_allocator_release,
  power2_allocator_reserve,
}
use target_utils.Power2.Valid.{IsValid, blocks_of}
use target_utils.Power2.Ranges.{SameSizes}
use target_utils.BitUtils.{is_uint32_power2}
use target_utils.BitUtils.Power.{is_uint32_power2_iff}
use target_utils.Power2.Create.{Created, power2_allocator_create-Created}
use target_utils.Power2.Allocate.{power2_allocator_alloc-Allocated}
use target_utils.Power2.Reserve.{power2_allocator_reserve-Reserved}
use target_utils.Power2.Release.{Released, power2_allocator_release-Released}

module _ (judy : JudyL) (asserts : Bool) where
  -- A call and what it returned. A size is not 0, and a range ends below 2^32.
  pub data Call (al al' : Allocator judy) : Type 0 where
    allocated :
        (size i : ℕ)
        → 0 < size
        → power2_allocator_alloc judy asserts al size ≡ ok (al', i)
        → Call al al'
    released : (i rc : ℕ) → power2_allocator_release judy asserts al i ≡ ok (al', rc) → Call al al'
    reserved :
        (i size rc : ℕ)
        → 0 < size
        → i + size < word32
        → power2_allocator_reserve judy asserts al i size ≡ ok (al', rc)
        → Call al al'

  -- The states of an allocator for `count` blocks of `size` indexes.
  pub data Reached (size count : ℕ) : Allocator judy → Type 0 where
    created :
        (al : Allocator judy)
        → power2_allocator_create judy asserts true true size count ≡ ok (some al)
        → Reached size count al
    called :
        (al al' : Allocator judy) → Reached size count al → Call al al' → Reached size count al'

  -- Valid, and of the sizes that it was created with.
  abbrev pub IsSound : ℕ → ℕ → Allocator judy → Type 0
  IsSound size count al = IsValid judy al × (al.max_size ≡ size) × (al.total_size ≡ size * count)

  abbrev left_by {ℓ} : {A : Type ℓ} → Run (A × ℕ) → A → A
  left_by (ok (a, n)) other = a
  left_by _ other = other

  same_left {ℓ} :
      {A : Type ℓ} (run : Run (A × ℕ)) (a b : A) (n m : ℕ)
      → run ≡ ok (a, n)
      → run ≡ ok (b, m)
      → a ≡ b
  same_left run a b n m e f = ap (λ r. left_by r a) (sym e ∙ f)

  abbrev made_by {ℓ} : {A : Type ℓ} → Run (Option A) → Option A
  made_by (ok o) = o
  made_by _ = none

  -- A call whose outcome is sound leaves a sound allocator.
  IsSound-left :
      (size count : ℕ) (run : Run (Allocator judy × ℕ)) (al al' : Allocator judy) (n m : ℕ)
      → run ≡ ok (al, n)
      → run ≡ ok (al', m)
      → IsSound size count al
      → IsSound size count al'
  IsSound-left size count run al al' n m e f sound =
      subst (IsSound size count) (same_left run al al' n m e f) sound

  IsSound-sizes :
      (size count : ℕ) (al al' : Allocator judy)
      → IsSound size count al
      → IsValid judy al'
      → SameSizes judy asserts al al'
      → IsSound size count al'
  IsSound-sizes size count al al' (valid, largest, total) valid' (m, t, n) =
      (valid', m ∙ largest, t ∙ total)

  Call-IsSound :
      HasMemory judy
      → (size count : ℕ) (al al' : Allocator judy) → IsSound size count al
      → Call al al'
      → IsSound size count al'
  Call-IsSound memory size count al al' sound (allocated n i pos run) =
      elim (power2_allocator_alloc-Allocated judy asserts memory al n sound.0 pos) [
        | inl (ran, full) ↦ IsSound-left size count _ al al' minus_one i ran run sound
        | inr (al₁, a, ran, le, room, valid, sizes, used) ↦
            IsSound-left size count _ al₁ al' a i ran run
              (IsSound-sizes size count al al₁ sound valid sizes)
      ]
  Call-IsSound memory size count al al' sound (reserved i n rc pos fits run) =
      elim (power2_allocator_reserve-Reserved judy asserts memory al i n sound.0 pos fits) [
        | inl (ran, taken) ↦ IsSound-left size count _ al al' 1 rc ran run sound
        | inr (al₁, ran, free, valid, sizes, used) ↦
            IsSound-left size count _ al₁ al' 0 rc ran run
              (IsSound-sizes size count al al₁ sound valid sizes)
      ]
  Call-IsSound memory size count al al' sound (released i rc run) =
      by_block (blocks_of judy al i)
        (power2_allocator_release-Released judy asserts memory al i sound.0)
    where
      by_block :
          (o : Option ℕ)
          → Released judy asserts al i o (power2_allocator_release judy asserts al i)
          → IsSound size count al'
      by_block none ran = IsSound-left size count _ al al' minus_one rc ran run sound
      by_block (some v) (al₁, ran, valid, sizes, used) =
          IsSound-left size count _ al₁ al' 0 rc ran run
            (IsSound-sizes size count al al₁ sound valid sizes)

  -- As long as memory does not run out, an allocator that `power2_allocator_create` made for a
  -- count of blocks of a size, where the total is below 2^32 - 1 and one more block would not
  -- exceed 2^32, is valid and of those sizes after any sequence of calls of
  -- `power2_allocator_alloc`, `power2_allocator_release` and `power2_allocator_reserve`, with sizes
  -- that are not 0 and ranges to reserve that end below 2^32.
  pub Reached-IsSound :
      HasMemory judy
      → (size count : ℕ) → size < word32
      → size * count < minus_one
      → size * count + size ≤ word32
      → (al : Allocator judy) → Reached size count al
      → IsSound size count al
  Reached-IsSound memory size count small below within _ (created al made) =
      let (o, run, outcome) =
        power2_allocator_create-Created judy asserts memory true true size count small below
          within in
      by_outcome o (ap made_by (sym run ∙ made)) outcome
    where
      by_outcome :
          (o : Option (Allocator judy))
          → o ≡ some al
          → Created judy asserts true true size count o
          → IsSound size count al
      by_outcome o e (new, gone) = elim (Bool-cases (is_uint32_power2 size)) [
        | inl power ↦
            let (al₁, f, (valid, largest, total, unused)) =
              new ((is_uint32_power2_iff size small).0 power, refl, refl) in
            let same : al₁ ≡ al = cc in subst (IsSound size count) same (valid, largest, total)
        | inr other ↦
            let failed =
              gone (λ served. let p = (is_uint32_power2_iff size small).1 served.0 in cc) in
            absurd (let f = sym failed ∙ e in cc)
      ]
  Reached-IsSound memory size count small below within _ (called before al reached call) =
      Call-IsSound memory size count before al
        (Reached-IsSound memory size count small below within before reached) call
