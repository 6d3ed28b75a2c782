-- ===== src/Judy/One.antt =====
-- Judy1: the macros J1S, J1U, J1T, J1F, J1N, J1P, J1FE, J1NE, J1LE, J1PE and J1FA.
-- An array is a set of words. A call that allocates memory can fail with JERR, and then leaves the
-- array as it was.
use target_utils.Base.{
  ℕ, suc, ◌≤◌, ◌<◌, ◌≡◌, ◌≢◌, Bool, true, false, not, Option, none, some, word64, ◌==◌,
  if◌then◌else◌,
}

-- `Rc_int`: JERR, 0 or 1.
pub data Rc : Type 0 where
  jerr rc_zero rc_one : Rc

abbrev pub rc_of : Bool → Rc
rc_of true = rc_one
rc_of false = rc_zero

-- The answer to an upward search from `from` for an index where `p` is `b`.
abbrev pub IsFirst : (ℕ → Bool) → Bool → ℕ → Option ℕ → Type 0
IsFirst p b from none = (k : ℕ) → from ≤ k → k < word64 → p k ≢ b
IsFirst p b from (some j) =
    (from ≤ j) × (j < word64) × (p j ≡ b) × ((k : ℕ) → from ≤ k → k < j → p k ≢ b)

-- The answer to a downward search below `below` for an index where `p` is `b`.
abbrev pub IsLast : (ℕ → Bool) → Bool → ℕ → Option ℕ → Type 0
IsLast p b below none = (k : ℕ) → k < below → p k ≢ b
IsLast p b below (some j) = (j < below) × (p j ≡ b) × ((k : ℕ) → j < k → k < below → p k ≢ b)

-- What a write of `b` at `i` returns and leaves, from the members before and after it.
abbrev pub Wrote : (ℕ → Bool) → ℕ → Bool → (ℕ → Bool) → Rc → Type 0
Wrote p i b q jerr = (k : ℕ) → q k ≡ p k
Wrote p i b q rc_zero = (p i ≡ b) × ((k : ℕ) → q k ≡ (if i == k then b else p k))
Wrote p i b q rc_one = (p i ≡ not b) × ((k : ℕ) → q k ≡ (if i == k then b else p k))

pub record Judy1 : Type 1 where
  pub Arr : Type 0
  pub empty : Arr
  pub test : Arr → ℕ → Bool
  pub j1s : Arr → ℕ → Arr × Rc
  pub j1u : Arr → ℕ → Arr × Rc
  pub j1f : Arr → ℕ → Option ℕ
  pub j1n : Arr → ℕ → Option ℕ
  pub j1p : Arr → ℕ → Option ℕ
  pub j1fe : Arr → ℕ → Option ℕ
  pub j1ne : Arr → ℕ → Option ℕ
  pub j1le : Arr → ℕ → Option ℕ
  pub j1pe : Arr → ℕ → Option ℕ
  -- What a call of J1N or J1FE that fails leaves in `Index`; the manual promises nothing of it.
  pub j1n_left : Arr → ℕ → ℕ
  pub j1fe_left : Arr → ℕ → ℕ
  pub test-empty : (i : ℕ) → test empty i ≡ false
  pub j1s-Wrote : (a : Arr) (i : ℕ) → Wrote (test a) i true (test (j1s a i).0) (j1s a i).1
  pub j1u-Wrote : (a : Arr) (i : ℕ) → Wrote (test a) i false (test (j1u a i).0) (j1u a i).1
  pub j1f-IsFirst : (a : Arr) (i : ℕ) → IsFirst (test a) true i (j1f a i)
  pub j1n-IsFirst : (a : Arr) (i : ℕ) → IsFirst (test a) true (suc i) (j1n a i)
  pub j1p-IsLast : (a : Arr) (i : ℕ) → IsLast (test a) true i (j1p a i)
  pub j1fe-IsFirst : (a : Arr) (i : ℕ) → IsFirst (test a) false i (j1fe a i)
  pub j1ne-IsFirst : (a : Arr) (i : ℕ) → IsFirst (test a) false (suc i) (j1ne a i)
  pub j1le-IsLast : (a : Arr) (i : ℕ) → IsLast (test a) false (suc i) (j1le a i)
  pub j1pe-IsLast : (a : Arr) (i : ℕ) → IsLast (test a) false i (j1pe a i)

module _ (judy : Judy1) where
  open judy use {Arr, test, j1s, j1u}

  -- Memory does not run out.
  abbrev pub HasMemory : Type 0
  HasMemory = (a : Arr) (i : ℕ) → ((j1s a i).1 ≢ jerr) × ((j1u a i).1 ≢ jerr)
