-- ===== src/Judy/Bits/Search.antt =====
-- Lists of bits: membership, writes, and searches upwards and downwards.
use target_utils.Base.{
  ℕ, zero, suc, length, ◌≤◌, ◌<◌, ◌≡◌, ◌≢◌, refl, Bool, true, false, not, List, [], ◌∷◌, Option,
  none, some, arith, word64, ◌==◌, if◌then◌else◌, ltb, Bool-cases, ==_iff, ltb→lt, ltb→le, inl, inr,
}
use mathlib.Core.Option
use target_utils.Judy.One.{rc_of, IsFirst, IsLast, Wrote}

abbrev pub member : List Bool → ℕ → Bool
member [] i = false
member (x ∷ xs) zero = x
member (x ∷ xs) (suc i) = member xs i

unfoldable pub write : List Bool → ℕ → Bool → List Bool
write [] zero b = b ∷ []
write [] (suc i) b = false ∷ write [] i b
write (x ∷ xs) zero b = b ∷ xs
write (x ∷ xs) (suc i) b = x ∷ write xs i b

member-write :
    (xs : List Bool) (i : ℕ) (b : Bool) (k : ℕ)
    → member (write xs i b) k ≡ (if i == k then b else member xs k)
unfolding write
member-write [] zero b zero = refl
member-write [] zero b (suc k) = ground arith
member-write [] (suc i) b zero = ground arith
member-write [] (suc i) b (suc k) = ground (arith, member-write [] i b k)
member-write (x ∷ xs) zero b zero = refl
member-write (x ∷ xs) zero b (suc k) = ground arith
member-write (x ∷ xs) (suc i) b zero = ground arith
member-write (x ∷ xs) (suc i) b (suc k) = ground (arith, member-write xs i b k)

-- No index past the end is a member.
pub member_beyond : (xs : List Bool) (k : ℕ) → length xs ≤ k → member xs k ≡ false
member_beyond [] k h = refl
member_beyond (x ∷ xs) zero h = absurd (omega arith)
member_beyond (x ∷ xs) (suc k) h = member_beyond xs k (omega arith)

abbrev pub same : Bool → Bool → Bool
same true b = b
same false b = not b

-- The least index from `from` with the bit `b`.
scan_up : Bool → ℕ → List Bool → Option ℕ
scan_up b from [] = if b then none else some from
scan_up b zero (x ∷ xs) =
    let rest = Option.map suc (scan_up b zero xs) in if same x b then some 0 else rest
scan_up b (suc from) (x ∷ xs) = Option.map suc (scan_up b from xs)

abbrev Scanned : (ℕ → Bool) → Bool → ℕ → Option ℕ → Type 0
Scanned p b from none = (k : ℕ) → from ≤ k → p k ≢ b
Scanned p b from (some j) = (from ≤ j) × (p j ≡ b) × ((k : ℕ) → from ≤ k → k < j → p k ≢ b)

shift-Scanned :
    (x : Bool) (xs : List Bool) (b : Bool) (from : ℕ) (r : Option ℕ)
    → Scanned (member xs) b from r
    → Scanned (member (x ∷ xs)) b (suc from) (Option.map suc r)
shift-Scanned x xs b from none h = later
  where
    later : (k : ℕ) → suc from ≤ k → member (x ∷ xs) k ≢ b
    later zero p = absurd (omega arith)
    later (suc k) p = h k (omega arith)
shift-Scanned x xs b from (some j) (h₀, h₁, h₂) = (omega arith, h₁, least)
  where
    least : (k : ℕ) → suc from ≤ k → k < suc j → member (x ∷ xs) k ≢ b
    least zero p q = absurd (omega arith)
    least (suc k) p q = h₂ k (omega arith) (omega arith)

skip-Scanned :
    (p : ℕ → Bool) (b : Bool) (r : Option ℕ) → p 0 ≢ b → Scanned p b 1 r → Scanned p b 0 r
skip-Scanned p b none h t = later
  where
    later : (k : ℕ) → 0 ≤ k → p k ≢ b
    later zero q = h
    later (suc k) q = t (suc k) (omega arith)
skip-Scanned p b (some j) h t = (omega arith, t.1, least)
  where
    least : (k : ℕ) → 0 ≤ k → k < j → p k ≢ b
    least zero q r = h
    least (suc k) q r = t.2 (suc k) (omega arith) r

scan_up-Scanned :
    (b : Bool) (from : ℕ) (xs : List Bool) → Scanned (member xs) b from (scan_up b from xs)
unfolding scan_up
scan_up-Scanned true from [] = λ k p. ground arith
scan_up-Scanned false from [] = (omega arith, refl, λ k p q. absurd (omega arith))
scan_up-Scanned b (suc from) (x ∷ xs) = shift-Scanned x xs b from _ (scan_up-Scanned b from xs)
scan_up-Scanned b zero (x ∷ xs) = elim (Bool-cases (same x b)) [
  | inl e ↦ rw e (omega arith, ground arith, λ k p q. absurd (omega arith))
  | inr e ↦ rw e (
      skip-Scanned (member (x ∷ xs)) b _ (ground arith)
        (shift-Scanned x xs b zero _ (scan_up-Scanned b zero xs)))
]

-- An answer beyond the last word is none.
unfoldable pub up : Bool → ℕ → List Bool → Option ℕ
unfolding scan_up
up b from xs = elim (scan_up b from xs) [
  | none ↦ none
  | some j ↦ if ltb j word64 then some j else none
]

cap-IsFirst :
    (p : ℕ → Bool) (b : Bool) (from : ℕ) (r : Option ℕ)
    → Scanned p b from r
    → IsFirst p b from (elim r [ none ↦ none | some j ↦ if ltb j word64 then some j else none ])
cap-IsFirst p b from none h = λ k q _. h k q
cap-IsFirst p b from (some j) h = elim (Bool-cases (ltb j word64)) [
  | inl e ↦ rw e (h.0, ltb→lt j word64 e, h.1, h.2)
  | inr e ↦ rw e (λ k q r. h.2 k q (omega (arith, ltb→le j word64 e)))
]

pub up-IsFirst : (b : Bool) (from : ℕ) (xs : List Bool) → IsFirst (member xs) b from (up b from xs)
unfolding up
up-IsFirst b from xs =
    cap-IsFirst (member xs) b from (scan_up b from xs) (scan_up-Scanned b from xs)

-- The greatest index below a number with the bit `b`.
unfoldable pub down : Bool → ℕ → List Bool → Option ℕ
down b zero xs = none
down b (suc k) xs = let rest = down b k xs in if same (member xs k) b then some k else rest

below-IsLast :
    (p : ℕ → Bool) (b : Bool) (n : ℕ) (r : Option ℕ)
    → p n ≢ b
    → IsLast p b n r
    → IsLast p b (suc n) r
below-IsLast p b n none h t = λ k q. elim (Bool-cases (k == n)) [
  | inl e ↦ rw ((==_iff k n).0 e) h
  | inr e ↦ t k (ground arith)
]
below-IsLast p b n (some j) h t = (
  omega arith,
  t.1,
  λ k q s. elim (Bool-cases (k == n)) [
    | inl e ↦ rw ((==_iff k n).0 e) h
    | inr e ↦ t.2 k q (ground arith)
  ],
)

pub down-IsLast : (b : Bool) (n : ℕ) (xs : List Bool) → IsLast (member xs) b n (down b n xs)
unfolding down
down-IsLast b zero xs = λ k q. absurd (omega arith)
down-IsLast b (suc n) xs = elim (Bool-cases (same (member xs n) b)) [
  | inl e ↦ rw e (omega arith, ground arith, λ k p q. absurd (omega arith))
  | inr e ↦ rw e (below-IsLast (member xs) b n _ (ground arith) (down-IsLast b n xs))
]

pub write-Wrote :
    (xs : List Bool) (i : ℕ) (b : Bool)
    → Wrote (member xs) i b (member (write xs i b)) (rc_of (not (same (member xs i) b)))
write-Wrote xs i b = elim (Bool-cases (same (member xs i) b)) [
  | inl e ↦ rw e (ground arith, λ k. member-write xs i b k)
  | inr e ↦ rw e (ground arith, λ k. member-write xs i b k)
]
