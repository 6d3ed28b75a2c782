-- ===== src/BfList/Tests.antt =====
-- Runs of the list macros.
use target_utils.Base.{
  ℕ, zero, suc, ◌≡◌, refl, arith, inl, inr, true, Option, none, some, List, [], ◌∷◌, ◌==◌,
  if◌then◌else◌,
}
use target_utils.Base.Run.{Run, Returns, ok, ◌>>=◌}
use target_utils.BfList.Append.{IsAppended, bf_list_dll_ap-IsAppended}
use target_utils.BfList.Prepend.{In, IsDll, IsPrepended, bf_list_dll_pp-IsPrepended}
use target_utils.BfList.{
  Cells, bf_list_dll_pp, bf_list_dll_last, bf_list_dll_ap, cut_out, bf_list_dll_rem,
  bf_list_dll_cat,
}

program : Unit {0}
unfolding bf_list_dll_pp bf_list_dll_last bf_list_dll_ap cut_out bf_list_dll_rem bf_list_dll_cat
program = tt

-- Cells that stand in no list.
abbrev loose : Cells
loose = λ p. some (record { next = none; prev = none })

-- The cells of a list from its first one on.
abbrev chain : ℕ → Option ℕ → Cells → List ℕ
chain zero l h = []
chain (suc fuel) none h = []
chain (suc fuel) (some p) h = p ∷ elim (h p) [ none ↦ [] | some c ↦ chain fuel c.next h ]

abbrev built : Run (List ℕ × Option ℕ)
built = do
  (h₁, l₁) ← bf_list_dll_ap true none 1 loose
  (h₂, l₂) ← bf_list_dll_ap true l₁ 2 h₁
  (h₃, l₃) ← bf_list_dll_pp true l₂ 3 h₂
  (h₄, l₄) ← bf_list_dll_ap true l₃ 4 h₃
  (h₅, l₅) ← bf_list_dll_rem true l₄ 1 h₄
  last ← bf_list_dll_last true l₅ h₅
  ok (chain 8 l₅ h₅, last)

built_chain : built ≡ ok (3 ∷ 2 ∷ 4 ∷ [], some 4)
unfolding program
built_chain = refl

abbrev joined : Run (List ℕ × Option ℕ × Option ℕ)
joined = do
  (h₁, l₁) ← bf_list_dll_ap true none 1 loose
  (h₂, l₂) ← bf_list_dll_ap true l₁ 2 h₁
  (h₃, m₁) ← bf_list_dll_ap true none 3 h₂
  (h₄, m₂) ← bf_list_dll_ap true m₁ 4 h₃
  (h₅, f, s) ← bf_list_dll_cat true l₂ m₂ h₄
  last ← bf_list_dll_last true f h₅
  ok (chain 8 f h₅, s, last)

joined_chain : joined ≡ ok (1 ∷ 2 ∷ 3 ∷ 4 ∷ [], none, some 4)
unfolding program
joined_chain = refl

-- Two cells in a list, and one outside it.
abbrev pair : Cells
pair = λ p.
    if p == 1
    then some (record { next = some 2; prev = some 2 })
    else if p == 2
    then some (record { next = none; prev = some 1 })
    else some (record { next = none; prev = none })

pair-IsDll : IsDll pair (some 1) (1 ∷ 2 ∷ [])
pair-IsDll = (
  (
    record { next = some 2; prev = some 2 },
    refl,
    refl,
    refl,
    (record { next = none; prev = some 1 }, refl, refl, refl, refl),
  ),
  (once, ((λ i. i), tt)),
)
  where
    once : ¬ (In 1 (2 ∷ []))
    once (inl same) = omega arith
    once (inr i) = i

three_new : ¬ (In 3 (1 ∷ 2 ∷ []))
three_new (inl same) = omega arith
three_new (inr (inl same)) = omega arith
three_new (inr (inr i)) = i

bf_list_dll_pp-IsPrepended_example :
    Returns
      (bf_list_dll_pp true (some 1) 3 pair)
      (IsPrepended true pair 3 (record { next = none; prev = none }) refl (1 ∷ 2 ∷ []))
bf_list_dll_pp-IsPrepended_example =
    bf_list_dll_pp-IsPrepended true pair 3 (record { next = none; prev = none }) refl (some 1)
      (1 ∷ 2 ∷ []) pair-IsDll three_new

bf_list_dll_ap-IsAppended_example :
    Returns
      (bf_list_dll_ap true (some 1) 3 pair)
      (IsAppended true pair 3 (record { next = none; prev = none }) refl (1 ∷ 2 ∷ []))
bf_list_dll_ap-IsAppended_example =
    bf_list_dll_ap-IsAppended true pair 3 (record { next = none; prev = none }) refl (some 1)
      (1 ∷ 2 ∷ []) pair-IsDll three_new
