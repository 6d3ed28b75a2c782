-- ===== src/BfList/Prepend.antt =====
-- The list that a heap of cells holds, and BF_LIST_DLL_PP of include/target-utils/list/bf_list.h on it.
use mathlib.Core.Path.{subst}
use target_utils.Base.{
  ℕ, ◌≡◌, ◌≢◌, refl, sym, ap, ◌∙◌, Bool, Option, none, some, List, [], ◌∷◌, ◌==◌, ==_refl, ne→==,
  if◌then◌else◌, ◌⊎◌, inl, inr,
}
use target_utils.Base.Run.{Run, ok, abort, ◌>>=◌, Returns}
use target_utils.BfList.{Cell, Cells, cell_at, set_cell, bf_list_dll_pp}

abbrev pub In : ℕ → List ℕ → Type 0
In y [] = ⊥
In y (x ∷ xs) = (y ≡ x) ⊎ In y xs

abbrev pub IsDistinct : List ℕ → Type 0
IsDistinct [] = Unit
IsDistinct (x ∷ xs) = (¬ (In x xs)) × IsDistinct xs

-- The cells from a pointer on, each of which points back to the one before it.
abbrev pub IsChain : Cells → Option ℕ → ℕ → List ℕ → Type 0
IsChain h p before [] = p ≡ none
IsChain h p before (x ∷ xs) =
    (c : Cell) × (p ≡ some x) × (h x ≡ some c) × (c.prev ≡ some before) × IsChain h c.next x xs

abbrev pub last_of : ℕ → List ℕ → ℕ
last_of y [] = y
last_of y (x ∷ xs) = last_of x xs

-- The first cell points back to the last one.
abbrev pub IsDll : Cells → Option ℕ → List ℕ → Type 0
IsDll h l xs = IsChain h l (last_of 0 xs) xs × IsDistinct xs

abbrev pub written : Cells → ℕ → Cell → Cells
written h p c = λ q. if p == q then some c else h q

pub written_here : (h : Cells) (p : ℕ) (c : Cell) → written h p c p ≡ some c
written_here h p c = ap (λ b. if b then some c else h p) (==_refl p)

pub written_other : (h : Cells) (p q : ℕ) (c : Cell) → p ≢ q → written h p c q ≡ h q
written_other h p q c other = ap (λ b. if b then some c else h q) (ne→== p q other)

pub cell_at_ok : (h : Cells) (p : ℕ) (c : Cell) → h p ≡ some c → cell_at h (some p) ≡ ok c
cell_at_ok h p c there = ap (λ o. elim o as (λ x. Run Cell) [ none ↦ abort | some c ↦ ok c ]) there

pub set_cell_ok :
    (h : Cells) (p : ℕ) (c : Cell) (change : Cell → Cell)
    → h p ≡ some c
    → set_cell h (some p) change ≡ ok (written h p (change c))
set_cell_ok h p c change there =
    ap (λ r. do c ← r; ok (written h p (change c))) (cell_at_ok h p c there)

-- A chain stays where its cells do.
pub IsChain-kept :
    (h h' : Cells) (p : Option ℕ) (before : ℕ) (xs : List ℕ)
    → ((y : ℕ) → In y xs → h' y ≡ h y)
    → IsChain h p before xs
    → IsChain h' p before xs
IsChain-kept h h' p before [] kept chain = chain
IsChain-kept h h' p before (x ∷ xs) kept (c, at, there, back, rest) = (
  c,
  at,
  kept x (inl refl) ∙ there,
  back,
  IsChain-kept h h' c.next x xs (λ y i. kept y (inr i)) rest,
)

module _ (asserts : Bool) (h : Cells) (e : ℕ) (c : Cell) (there : h e ≡ some c) where
  pp_empty :
      let c₁ = record c { next = none } in
      bf_list_dll_pp asserts none e h
      ≡ ok (written (written h e c₁) e (record c₁ { prev = some e }), some e)
  unfolding bf_list_dll_pp
  pp_empty =
      let c₁ = record c { next = none } in
      ap
        (λ r. do
          h₁ ← r
          h₂ ← set_cell h₁ (some e) (λ c. record c { prev = some e })
          ok (h₂, some e))
        (set_cell_ok h e c (λ c. record c { next = none }) there)
      ∙ ap (λ r. do h₂ ← r; ok (h₂, some e))
          (set_cell_ok (written h e c₁) e c₁ (λ c. record c { prev = some e })
            (written_here h e c₁))

  pp_front :
      (x : ℕ) (d : Cell)
      → h x ≡ some d
      → e ≢ x
      → let c₁ = record c { next = some x } in
        let c₂ = record c₁ { prev = d.prev } in
        bf_list_dll_pp asserts (some x) e h
        ≡ ok (written (written (written h e c₁) e c₂) x (record d { prev = some e }), some e)
  unfolding bf_list_dll_pp
  pp_front x d here apart =
      let c₁ = record c { next = some x } in
      let c₂ = record c₁ { prev = d.prev } in
      let h₁ = written h e c₁ in
      let h₂ = written h₁ e c₂ in
      let front₁ : h₁ x ≡ some d = written_other h e x c₁ apart ∙ here in
      let front₂ : h₂ x ≡ some d = written_other h₁ e x c₂ apart ∙ front₁ in
      ap
        (λ r. do
          h₁ ← r
          h₂ ← (do
            f ← cell_at h₁ (some x)
            h' ← set_cell h₁ (some e) (λ c. record c { prev = f.prev })
            set_cell h' (some x) (λ c. record c { prev = some e }))
          ok (h₂, some e))
        (set_cell_ok h e c (λ c. record c { next = some x }) there)
      ∙ ap
          (λ r. do
            h₂ ← (do
              f ← r
              h' ← set_cell h₁ (some e) (λ c. record c { prev = f.prev })
              set_cell h' (some x) (λ c. record c { prev = some e }))
            ok (h₂, some e))
          (cell_at_ok h₁ x d front₁)
      ∙ ap
          (λ r. do
            h₂ ← (do h' ← r; set_cell h' (some x) (λ c. record c { prev = some e }))
            ok (h₂, some e))
          (set_cell_ok h₁ e c₁ (λ c. record c { prev = d.prev }) (written_here h e c₁))
      ∙ ap (λ r. do h₂ ← r; ok (h₂, some e))
          (set_cell_ok h₂ x d (λ c. record c { prev = some e }) front₂)

  -- The list is one cell longer, and the cells outside it are as before.
  abbrev pub IsPrepended : List ℕ → Cells × Option ℕ → Type 0
  IsPrepended xs (h', l') = IsDll h' l' (e ∷ xs) × ((q : ℕ) → ¬ (In q (e ∷ xs)) → h' q ≡ h q)

  -- On a heap that holds a doubly linked list and a cell outside it, BF_LIST_DLL_PP of that cell
  -- fails no assertion and ends, the heap then holds the list with the cell in front, and every
  -- cell outside it is as before.
  pub bf_list_dll_pp-IsPrepended :
      (l : Option ℕ) (xs : List ℕ)
      → IsDll h l xs
      → ¬ (In e xs)
      → Returns (bf_list_dll_pp asserts l e h) (IsPrepended xs)
  bf_list_dll_pp-IsPrepended l [] (empty, distinct) fresh =
      let c₁ = record c { next = none } in
      let c₂ = record c₁ { prev = some e } in
      let h₁ = written h e c₁ in
      (
        (written h₁ e c₂, some e),
        ap (λ p. bf_list_dll_pp asserts p e h) empty ∙ pp_empty,
        (
          ((c₂, refl, written_here h₁ e c₂, refl, refl), (fresh, tt)),
          λ q out.
              let other : e ≢ q = λ same. out (inl (sym same)) in
              written_other h₁ e q c₂ other ∙ written_other h e q c₁ other,
        ),
      )
  bf_list_dll_pp-IsPrepended l (x ∷ xs) ((d, at, here, back, rest), (once, distinct)) fresh =
      let c₁ = record c { next = some x } in
      let c₂ = record c₁ { prev = d.prev } in
      let h₁ = written h e c₁ in
      let h₂ = written h₁ e c₂ in
      let d₁ = record d { prev = some e } in
      let apart : e ≢ x = λ same. fresh (inl same) in
      let kept = λ (q : ℕ) (other : e ≢ q) (off : x ≢ q).
        written_other h₂ x q d₁ off
        ∙ written_other h₁ e q c₂ other
        ∙ written_other h e q c₁ other in
      (
        (written h₂ x d₁, some e),
        ap (λ p. bf_list_dll_pp asserts p e h) at ∙ pp_front x d here apart,
        (
          (
            (
              c₂,
              refl,
              written_other h₂ x e d₁ (λ same. apart (sym same)) ∙ written_here h₁ e c₂,
              back,
              (
                d₁,
                refl,
                written_here h₂ x d₁,
                refl,
                IsChain-kept h (written h₂ x d₁) d.next x xs
                    (λ y i.
                      kept y (λ same. fresh (inr (subst (λ z. In z xs) (sym same) i)))
                        (λ same. once (subst (λ z. In z xs) (sym same) i)))
                    rest,
              ),
            ),
            (fresh, (once, distinct)),
          ),
          λ q out. kept q (λ same. out (inl (sym same))) (λ same. out (inr (inl (sym same)))),
        ),
      )
