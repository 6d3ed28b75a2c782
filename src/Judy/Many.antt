-- ===== src/Judy/Many.antt =====
-- JudyL: the macros JLI, JLD, JLG, JLF, JLN, JLP, JLC and JLFA.
-- An array maps words to words. A call returns a pointer to a value in the array: PJERR, NULL, or
-- the slot at an index, here with the value that stands there. The code writes through a slot.
use target_utils.Base.{ℕ, suc, ◌≤◌, ◌<◌, ◌≡◌, ◌≢◌, Option, none, some, word64, ◌==◌, if◌then◌else◌}
use target_utils.Judy.One.{Rc, jerr, rc_zero, rc_one}

pub data Pointer : Type 0 where
  pjerr null : Pointer
  slot : ℕ → ℕ → Pointer

abbrev pub value_or : Option ℕ → ℕ → ℕ
value_or none d = d
value_or (some v) d = v

abbrev pub slot_of : ℕ → Option ℕ → Pointer
slot_of i none = null
slot_of i (some v) = slot i v

-- The answer to an upward search for an entry from `from`.
abbrev pub IsFirst : (ℕ → Option ℕ) → ℕ → Pointer → Type 0
IsFirst f from pjerr = ⊥
IsFirst f from null = (k : ℕ) → from ≤ k → k < word64 → f k ≡ none
IsFirst f from (slot j v) =
    (from ≤ j) × (j < word64) × (f j ≡ some v) × ((k : ℕ) → from ≤ k → k < j → f k ≡ none)

-- The answer to a downward search for an entry below `below`.
abbrev pub IsLast : (ℕ → Option ℕ) → ℕ → Pointer → Type 0
IsLast f below pjerr = ⊥
IsLast f below null = (k : ℕ) → k < below → f k ≡ none
IsLast f below (slot j v) =
    (j < below) × (f j ≡ some v) × ((k : ℕ) → j < k → k < below → f k ≡ none)

-- A new entry reads 0; an entry that is there is kept.
abbrev pub Inserted : (ℕ → Option ℕ) → ℕ → (ℕ → Option ℕ) → Pointer → Type 0
Inserted f i g pjerr = (k : ℕ) → g k ≡ f k
Inserted f i g null = ⊥
Inserted f i g (slot j v) =
    (j ≡ i) × (v ≡ value_or (f i) 0) × ((k : ℕ) → g k ≡ (if i == k then some v else f k))

abbrev pub Deleted : (ℕ → Option ℕ) → ℕ → (ℕ → Option ℕ) → Rc → Type 0
Deleted f i g jerr = (k : ℕ) → g k ≡ f k
Deleted f i g rc_zero = (f i ≡ none) × ((k : ℕ) → g k ≡ f k)
Deleted f i g rc_one = (f i ≢ none) × ((k : ℕ) → g k ≡ (if i == k then none else f k))

pub record JudyL : Type 1 where
  pub Arr : Type 0
  pub empty : Arr
  -- The contents.
  pub lookup : Arr → ℕ → Option ℕ
  pub jli : Arr → ℕ → Arr × Pointer
  -- `*Pvalue = v` through the slot at an index.
  pub store : Arr → ℕ → ℕ → Arr
  pub jld : Arr → ℕ → Arr × Rc
  pub jlg : Arr → ℕ → Pointer
  pub jlf : Arr → ℕ → Pointer
  pub jln : Arr → ℕ → Pointer
  pub jlp : Arr → ℕ → Pointer
  -- JLC from a first index to a last one.
  pub jlc : Arr → ℕ → ℕ → ℕ
  pub lookup-empty : (i : ℕ) → lookup empty i ≡ none
  pub jli-Inserted : (a : Arr) (i : ℕ) → Inserted (lookup a) i (lookup (jli a i).0) (jli a i).1
  pub lookup-store :
      (a : Arr) (i v k : ℕ)
      → lookup a i ≢ none
      → lookup (store a i v) k ≡ (if i == k then some v else lookup a k)
  pub jld-Deleted : (a : Arr) (i : ℕ) → Deleted (lookup a) i (lookup (jld a i).0) (jld a i).1
  pub jlg_lem : (a : Arr) (i : ℕ) → jlg a i ≡ slot_of i (lookup a i)
  pub jlf-IsFirst : (a : Arr) (i : ℕ) → IsFirst (lookup a) i (jlf a i)
  pub jln-IsFirst : (a : Arr) (i : ℕ) → IsFirst (lookup a) (suc i) (jln a i)
  pub jlp-IsLast : (a : Arr) (i : ℕ) → IsLast (lookup a) i (jlp a i)

module _ (judy : JudyL) where
  open judy use {Arr, jli, jld}

  -- Memory does not run out.
  abbrev pub HasMemory : Type 0
  HasMemory = (a : Arr) (i : ℕ) → ((jli a i).1 ≢ pjerr) × ((jld a i).1 ≢ jerr)
