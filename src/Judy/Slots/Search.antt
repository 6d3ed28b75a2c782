-- ===== src/Judy/Slots/Search.antt =====
-- Lists of slots: contents, writes, counting, and searches upwards and downwards.
use mathlib.Core.Option
use target_utils.Base.{
  leb, ◌&&◌, ℕ, zero, suc, length, ◌+◌, ◌≤◌, ◌<◌, ◌≡◌, refl, List, [], ◌∷◌, Option, none, some,
  arith, word64, ◌==◌, if◌then◌else◌, ltb, Bool-cases, ==_iff, ltb→lt, ltb→le, inl, inr,
}
use target_utils.Judy.Many.{Pointer, pjerr, null, slot, IsFirst, IsLast}

abbrev pub content : List (Option ℕ) → ℕ → Option ℕ
content [] i = none
content (x ∷ xs) zero = x
content (x ∷ xs) (suc i) = content xs i

-- No index past the end has an entry.
pub content_beyond : (xs : List (Option ℕ)) (k : ℕ) → length xs ≤ k → content xs k ≡ none
content_beyond [] k h = refl
content_beyond (x ∷ xs) zero h = absurd (omega arith)
content_beyond (x ∷ xs) (suc k) h = content_beyond xs k (omega arith)

unfoldable pub write : List (Option ℕ) → ℕ → Option ℕ → List (Option ℕ)
write [] zero b = b ∷ []
write [] (suc i) b = none ∷ write [] i b
write (x ∷ xs) zero b = b ∷ xs
write (x ∷ xs) (suc i) b = x ∷ write xs i b

pub content-write :
    (xs : List (Option ℕ)) (i : ℕ) (b : Option ℕ) (k : ℕ)
    → content (write xs i b) k ≡ (if i == k then b else content xs k)
unfolding write
content-write [] zero b zero = refl
content-write [] zero b (suc k) = ground arith
content-write [] (suc i) b zero = ground arith
content-write [] (suc i) b (suc k) = ground (arith, content-write [] i b k)
content-write (x ∷ xs) zero b zero = refl
content-write (x ∷ xs) zero b (suc k) = ground arith
content-write (x ∷ xs) (suc i) b zero = ground arith
content-write (x ∷ xs) (suc i) b (suc k) = ground (arith, content-write xs i b k)

-- The entries from an index to another, of a list whose first slot has the index `at`.
unfoldable pub count : ℕ → ℕ → ℕ → List (Option ℕ) → ℕ
count at lo hi [] = 0
count at lo hi (none ∷ xs) = count (suc at) lo hi xs
count at lo hi (some v ∷ xs) = (if leb lo at && leb at hi then 1 else 0) + count (suc at) lo hi xs

-- The least entry from `from`.
scan_up : ℕ → List (Option ℕ) → Option (ℕ × ℕ)
scan_up from [] = none
scan_up zero (some v ∷ xs) = some (0, v)
scan_up zero (none ∷ xs) = Option.map (λ e. (suc e.0, e.1)) (scan_up zero xs)
scan_up (suc from) (x ∷ xs) = Option.map (λ e. (suc e.0, e.1)) (scan_up from xs)

abbrev Scanned : (ℕ → Option ℕ) → ℕ → Option (ℕ × ℕ) → Type 0
Scanned p from none = (k : ℕ) → from ≤ k → p k ≡ none
Scanned p from (some (j, v)) =
    (from ≤ j) × (p j ≡ some v) × ((k : ℕ) → from ≤ k → k < j → p k ≡ none)

shift-Scanned :
    (x : Option ℕ) (xs : List (Option ℕ)) (from : ℕ) (r : Option (ℕ × ℕ))
    → Scanned (content xs) from r
    → Scanned (content (x ∷ xs)) (suc from) (Option.map (λ e. (suc e.0, e.1)) r)
shift-Scanned x xs from none h = later
  where
    later : (k : ℕ) → suc from ≤ k → content (x ∷ xs) k ≡ none
    later zero p = absurd (omega arith)
    later (suc k) p = h k (omega arith)
shift-Scanned x xs from (some (j, v)) (h₀, h₁, h₂) = (omega arith, h₁, least)
  where
    least : (k : ℕ) → suc from ≤ k → k < suc j → content (x ∷ xs) k ≡ none
    least zero p q = absurd (omega arith)
    least (suc k) p q = h₂ k (omega arith) (omega arith)

skip-Scanned : (p : ℕ → Option ℕ) (r : Option (ℕ × ℕ)) → p 0 ≡ none → Scanned p 1 r → Scanned p 0 r
skip-Scanned p none h t = later
  where
    later : (k : ℕ) → 0 ≤ k → p k ≡ none
    later zero q = h
    later (suc k) q = t (suc k) (omega arith)
skip-Scanned p (some (j, v)) h t = (omega arith, t.1, least)
  where
    least : (k : ℕ) → 0 ≤ k → k < j → p k ≡ none
    least zero q r = h
    least (suc k) q r = t.2 (suc k) (omega arith) r

scan_up-Scanned : (from : ℕ) (xs : List (Option ℕ)) → Scanned (content xs) from (scan_up from xs)
unfolding scan_up
scan_up-Scanned from [] = λ k p. refl
scan_up-Scanned (suc from) (x ∷ xs) = shift-Scanned x xs from _ (scan_up-Scanned from xs)
scan_up-Scanned zero (some v ∷ xs) = (omega arith, refl, λ k p q. absurd (omega arith))
scan_up-Scanned zero (none ∷ xs) =
    skip-Scanned (content (none ∷ xs)) _ refl
      (shift-Scanned none xs zero _ (scan_up-Scanned zero xs))

-- An answer beyond the last word is none.
abbrev cap : Option (ℕ × ℕ) → Pointer
cap none = null
cap (some (j, v)) = if ltb j word64 then slot j v else null

unfoldable pub up : ℕ → List (Option ℕ) → Pointer
unfolding scan_up
up from xs = cap (scan_up from xs)

cap-IsFirst :
    (p : ℕ → Option ℕ) (from : ℕ) (r : Option (ℕ × ℕ)) → Scanned p from r → IsFirst p from (cap r)
cap-IsFirst p from none h = λ k q _. h k q
cap-IsFirst p from (some (j, v)) h = elim (Bool-cases (ltb j word64)) [
  | inl e ↦ rw e (h.0, ltb→lt j word64 e, h.1, h.2)
  | inr e ↦ rw e (λ k q r. h.2 k q (omega (arith, ltb→le j word64 e)))
]

pub up-IsFirst : (from : ℕ) (xs : List (Option ℕ)) → IsFirst (content xs) from (up from xs)
unfolding up
up-IsFirst from xs = cap-IsFirst (content xs) from (scan_up from xs) (scan_up-Scanned from xs)

-- The greatest entry below a number.
abbrev or_below : ℕ → Option ℕ → Pointer → Pointer
or_below k (some v) rest = slot k v
or_below k none rest = rest

unfoldable pub down : ℕ → List (Option ℕ) → Pointer
down zero xs = null
down (suc k) xs = let rest = down k xs in or_below k (content xs k) rest

below-IsLast :
    (p : ℕ → Option ℕ) (n : ℕ) (o : Option ℕ) (r : Pointer)
    → p n ≡ o
    → IsLast p n r
    → IsLast p (suc n) (or_below n o r)
below-IsLast p n (some v) r h t = (omega arith, h, λ k q s. absurd (omega arith))
below-IsLast p n none pjerr h t = t
below-IsLast p n none null h t = λ k q. elim (Bool-cases (k == n)) [
  | inl e ↦ rw ((==_iff k n).0 e) h
  | inr e ↦ t k (ground arith)
]
below-IsLast p n none (slot j v) h t = (
  omega arith,
  t.1,
  λ k q s. elim (Bool-cases (k == n)) [
    | inl e ↦ rw ((==_iff k n).0 e) h
    | inr e ↦ t.2 k q (ground arith)
  ],
)

pub down-IsLast : (n : ℕ) (xs : List (Option ℕ)) → IsLast (content xs) n (down n xs)
unfolding down
down-IsLast zero xs = λ k q. absurd (omega arith)
down-IsLast (suc n) xs = below-IsLast (content xs) n _ (down n xs) refl (down-IsLast n xs)
