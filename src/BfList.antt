-- ===== src/BfList.antt =====
-- include/target-utils/list/bf_list.h: the macros on doubly linked lists, over a heap of cells. A
-- list is a pointer to its first cell, `none` where it is empty; the `prev` field of that cell points
-- to the last one. The fields that a macro names are `next` and `prev` here. Reading or writing
-- through NULL ends the process.
pub mod Prepend
pub mod Append
mod Tests
use target_utils.Base.{ℕ, Bool, true, false, Option, none, some, ◌==◌, if◌then◌else◌}
use target_utils.Base.Run.{Run, ok, abort, ◌>>=◌, ◌>>◌, bf_sys_assert}

pub record Cell : Type 0 where
  pub next : Option ℕ
  pub prev : Option ℕ

abbrev pub Cells : Type 0
Cells = ℕ → Option Cell

abbrev pub cell_at : Cells → Option ℕ → Run Cell
cell_at h none = abort
cell_at h (some p) = elim (h p) [ none ↦ abort | some c ↦ ok c ]

-- An assignment to a field of a cell.
abbrev pub set_cell : Cells → Option ℕ → (Cell → Cell) → Run Cells
set_cell h none change = abort
set_cell h (some p) change = do
  c ← cell_at h (some p)
  ok (λ q. if p == q then some (change c) else h q)

abbrev pub is_some : Option ℕ → Bool
is_some none = false
is_some (some p) = true

abbrev pub same_cell : Option ℕ → Option ℕ → Bool
same_cell none none = true
same_cell none (some q) = false
same_cell (some p) none = false
same_cell (some p) (some q) = p == q

module _ (asserts : Bool) where
  -- Prepend.
  unfoldable pub bf_list_dll_pp : Option ℕ → ℕ → Cells → Run (Cells × Option ℕ)
  bf_list_dll_pp l e h = do
    h₁ ← set_cell h (some e) (λ c. record c { next = l })
    h₂ ← elim l [
      | none ↦ set_cell h₁ (some e) (λ c. record c { prev = some e })
      | some first ↦ do
        f ← cell_at h₁ (some first)
        h' ← set_cell h₁ (some e) (λ c. record c { prev = f.prev })
        set_cell h' (some first) (λ c. record c { prev = some e })
    ]
    ok (h₂, some e)

  -- Get last.
  unfoldable pub bf_list_dll_last : Option ℕ → Cells → Run (Option ℕ)
  bf_list_dll_last none h = ok none
  bf_list_dll_last (some first) h = do f ← cell_at h (some first); ok f.prev

  -- Append.
  unfoldable pub bf_list_dll_ap : Option ℕ → ℕ → Cells → Run (Cells × Option ℕ)
  bf_list_dll_ap l e h = do
    h₁ ← set_cell h (some e) (λ c. record c { next = none })
    elim l [
      | none ↦ do h₂ ← set_cell h₁ (some e) (λ c. record c { prev = some e }); ok (h₂, some e)
      | some first ↦ do
        f ← cell_at h₁ (some first)
        h₂ ← set_cell h₁ (some e) (λ c. record c { prev = f.prev })
        bf_sys_assert asserts (is_some f.prev)
        f₂ ← cell_at h₂ (some first)
        h₃ ← set_cell h₂ f₂.prev (λ c. record c { next = some e })
        h₄ ← set_cell h₃ (some first) (λ c. record c { prev = some e })
        ok (h₄, some first)
    ]

  -- Remove, before the fields of the cell are cleared.
  unfoldable pub cut_out : Option ℕ → ℕ → Cells → Run (Cells × Option ℕ)
  cut_out l e h = do
    c ← cell_at h (some e)
    elim (same_cell c.prev (some e)) [
      | true ↦ ok (h, none)
      | false ↦ elim (same_cell (some e) l) [
        | true ↦ do
          bf_sys_assert asserts (is_some c.next)
          h₁ ← set_cell h c.next (λ d. record d { prev = c.prev })
          c₁ ← cell_at h₁ (some e)
          ok (h₁, c₁.next)
        | false ↦ do
          bf_sys_assert asserts (is_some c.prev)
          h₁ ← set_cell h c.prev (λ d. record d { next = c.next })
          c₁ ← cell_at h₁ (some e)
          elim c₁.next [
            | some q ↦ do h₂ ← set_cell h₁ (some q) (λ d. record d { prev = c₁.prev }); ok (h₂, l)
            | none ↦ do
              bf_sys_assert asserts (is_some l)
              h₂ ← set_cell h₁ l (λ d. record d { prev = c₁.prev })
              ok (h₂, l)
          ]
      ]
    ]

  -- Remove.
  unfoldable pub bf_list_dll_rem : Option ℕ → ℕ → Cells → Run (Cells × Option ℕ)
  unfolding cut_out
  bf_list_dll_rem l e h = do
    (h₁, l') ← cut_out l e h
    h₂ ← set_cell h₁ (some e) (λ c. record c { prev = none; next = none })
    ok (h₂, l')

  -- Concatenate: the first list and the second one afterwards.
  unfoldable pub bf_list_dll_cat : Option ℕ → Option ℕ → Cells → Run (Cells × Option ℕ × Option ℕ)
  bf_list_dll_cat f none h = ok (h, f, none)
  bf_list_dll_cat none (some s) h = ok (h, some s, none)
  bf_list_dll_cat (some f) (some s) h = do
    first ← cell_at h (some f)
    bf_sys_assert asserts (is_some first.prev)
    h₁ ← set_cell h first.prev (λ c. record c { next = some s })
    second ← cell_at h₁ (some s)
    h₂ ← set_cell h₁ (some f) (λ c. record c { prev = second.prev })
    h₃ ← set_cell h₂ (some s) (λ c. record c { prev = first.prev })
    ok (h₃, some f, none)
