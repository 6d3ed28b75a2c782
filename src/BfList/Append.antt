-- ===== src/BfList/Append.antt =====
-- BF_LIST_DLL_AP of include/target-utils/list/bf_list.h on a list with cells in it.
use mathlib.Core.Path.{subst}
use target_utils.Base.{
  ℕ, ◌≡◌, ◌≢◌, refl, sym, ap, ◌∙◌, Bool, Option, none, some, List, [], ◌∷◌, ◌++◌, ◌⊎◌, inl, inr,
}
use target_utils.Base.Run.{Run, ok, bf_sys_assert_ok, bf_sys_assert, ◌>>=◌, ◌>>◌, Returns}
use target_utils.BfList.{Cell, Cells, cell_at, set_cell, is_some, bf_list_dll_ap}
use target_utils.BfList.Prepend.{
  In, IsDistinct, IsChain, last_of, IsDll, written, written_here, written_other, cell_at_ok,
  set_cell_ok, IsChain-kept,
}

-- The last cell of a chain, and that the chain goes on behind it once it points to a new cell.
module _ (h h' : Cells) (e : ℕ) (new : Cell) where
  last_cell :
      (p : Option ℕ) (before y : ℕ) (ys : List ℕ)
      → IsChain h p before (y ∷ ys)
      → (m : Cell) × (h (last_of y ys) ≡ some m)
  last_cell p before y [] (c, at, there, back, rest) = (c, there)
  last_cell p before y (z ∷ zs) (c, at, there, back, rest) = last_cell c.next y z zs rest

  last-In : (y : ℕ) (ys : List ℕ) → In (last_of y ys) (y ∷ ys)
  last-In y [] = inl refl
  last-In y (z ∷ zs) = inr (last-In z zs)

  extended :
      (p : Option ℕ) (before y : ℕ) (ys : List ℕ) (m : Cell)
      → IsChain h p before (y ∷ ys)
      → IsDistinct (y ∷ ys)
      → h (last_of y ys) ≡ some m
      → h' (last_of y ys) ≡ some (record m { next = some e })
      → ((q : ℕ) → In q (y ∷ ys) → q ≢ last_of y ys → h' q ≡ h q)
      → h' e ≡ some new
      → new.next ≡ none
      → new.prev ≡ some (last_of y ys)
      → IsChain h' p before (y ∷ (ys ++ (e ∷ [])))
  extended p before y [] m (c, at, there, back, rest) distinct here changed kept fresh ends behind =
      let same : m ≡ c = cc in
      (
        record m { next = some e },
        at,
        changed,
        ap (λ (d : Cell). d.prev) same ∙ back,
        (new, refl, fresh, behind, ends),
      )
  extended p before y (z ∷ zs) m (c, at, there, back, rest) (once, distinct) here changed kept fresh
        ends behind =
      let off : y ≢ last_of z zs =
        λ same. once (subst (λ q. In q (z ∷ zs)) (sym same) (last-In z zs)) in
      (
        c,
        at,
        kept y (inl refl) off ∙ there,
        back,
        extended c.next y z zs m rest distinct here changed (λ q i. kept q (inr i)) fresh ends
            behind,
      )

last_of-snoc : (y : ℕ) (ys : List ℕ) (e : ℕ) → last_of y (ys ++ (e ∷ [])) ≡ e
last_of-snoc y [] e = refl
last_of-snoc y (z ∷ zs) e = last_of-snoc z zs e

In-snoc : (q : ℕ) (ys : List ℕ) (e : ℕ) → In q (ys ++ (e ∷ [])) → In q ys ⊎ (q ≡ e)
In-snoc q [] e (inl same) = inr same
In-snoc q [] e (inr i) = inl i
In-snoc q (z ∷ zs) e (inl same) = inl (inl same)
In-snoc q (z ∷ zs) e (inr i) = elim (In-snoc q zs e i) [ inl j ↦ inl (inr j) | inr same ↦ inr same ]

snoc-IsDistinct : (ys : List ℕ) (e : ℕ) → IsDistinct ys → ¬ (In e ys) → IsDistinct (ys ++ (e ∷ []))
snoc-IsDistinct [] e distinct new = ((λ i. i), tt)
snoc-IsDistinct (z ∷ zs) e (once, distinct) new = (
  λ i. elim (In-snoc z zs e i) [ inl j ↦ once j | inr same ↦ new (inl (sym same)) ],
  snoc-IsDistinct zs e distinct (λ i. new (inr i)),
)

snoc-In : (q : ℕ) (ys : List ℕ) (e : ℕ) → In q ys ⊎ (q ≡ e) → In q (ys ++ (e ∷ []))
snoc-In q [] e (inl i) = absurd i
snoc-In q [] e (inr same) = inl same
snoc-In q (z ∷ zs) e (inl (inl same)) = inl same
snoc-In q (z ∷ zs) e (inl (inr i)) = inr (snoc-In q zs e (inl i))
snoc-In q (z ∷ zs) e (inr same) = inr (snoc-In q zs e (inr same))

module _ (asserts : Bool) (h : Cells) (e : ℕ) (c : Cell) (there : h e ≡ some c) where
  abbrev c₁ : Cell
  c₁ = record c { next = none }

  abbrev h₁ : Cells
  h₁ = written h e c₁

  ap_empty :
      bf_list_dll_ap asserts none e h ≡ ok (written h₁ e (record c₁ { prev = some e }), some e)
  unfolding bf_list_dll_ap
  ap_empty =
      ap
        (λ r. do
          h₁ ← r
          h₂ ← set_cell h₁ (some e) (λ c. record c { prev = some e })
          ok (h₂, some e))
        (set_cell_ok h e c (λ c. record c { next = none }) there)
      ∙ ap (λ r. do h₂ ← r; ok (h₂, some e))
          (set_cell_ok h₁ e c₁ (λ c. record c { prev = some e }) (written_here h e c₁))

  module _ (x z : ℕ) (d m : Cell) (here : h x ≡ some d) (back : d.prev ≡ some z)
      (at_end : h z ≡ some m) (off_front : e ≢ x) (off_end : e ≢ z) where
    abbrev c₂ : Cell
    c₂ = record c₁ { prev = d.prev }

    abbrev h₂ : Cells
    h₂ = written h₁ e c₂

    abbrev h₃ : Cells
    h₃ = written h₂ z (record m { next = some e })

    -- The macro from its last three statements backwards.
    abbrev close : Cells → Run (Cells × Option ℕ)
    close h₃ = do h₄ ← set_cell h₃ (some x) (λ c. record c { prev = some e }); ok (h₄, some x)

    abbrev link : Cells → Option ℕ → Run (Cells × Option ℕ)
    link h₂ p = do h₃ ← set_cell h₂ p (λ c. record c { next = some e }); close h₃

    abbrev marked : Cells → Run (Cells × Option ℕ)
    marked h₂ = do f₂ ← cell_at h₂ (some x); link h₂ f₂.prev

    outside : (q : ℕ) → e ≢ q → h₂ q ≡ h q
    outside q other = written_other h₁ e q c₂ other ∙ written_other h e q c₁ other

    ap_front :
        (d₃ : Cell)
        → h₃ x ≡ some d₃
        → bf_list_dll_ap asserts (some x) e h
          ≡ ok (written h₃ x (record d₃ { prev = some e }), some x)
    unfolding bf_list_dll_ap
    ap_front d₃ third =
        ap
          (λ r. do
            h₁ ← r
            f ← cell_at h₁ (some x)
            h₂ ← set_cell h₁ (some e) (λ c. record c { prev = f.prev })
            bf_sys_assert asserts (is_some f.prev)
            marked h₂)
          (set_cell_ok h e c (λ c. record c { next = none }) there)
        ∙ ap
            (λ r. do
              f ← r
              h₂ ← set_cell h₁ (some e) (λ c. record c { prev = f.prev })
              bf_sys_assert asserts (is_some f.prev)
              marked h₂)
            (cell_at_ok h₁ x d (written_other h e x c₁ off_front ∙ here))
        ∙ ap (λ r. do h₂ ← r; bf_sys_assert asserts (is_some d.prev); marked h₂)
            (set_cell_ok h₁ e c₁ (λ c. record c { prev = d.prev }) (written_here h e c₁))
        ∙ ap (λ r. do r; marked h₂) (bf_sys_assert_ok asserts (is_some d.prev) (ap is_some back))
        ∙ ap (λ r. do f₂ ← r; link h₂ f₂.prev) (cell_at_ok h₂ x d (outside x off_front ∙ here))
        ∙ ap (link h₂) back
        ∙ ap (λ r. do h₃ ← r; close h₃)
            (set_cell_ok h₂ z m (λ c. record c { next = some e }) (outside z off_end ∙ at_end))
        ∙ ap (λ r. do h₄ ← r; ok (h₄, some x))
            (set_cell_ok h₃ x d₃ (λ c. record c { prev = some e }) third)

  -- The list is one cell longer, and the cells outside it are as before.
  abbrev pub IsAppended : List ℕ → Cells × Option ℕ → Type 0
  IsAppended xs (h', l') =
      IsDll h' l' (xs ++ (e ∷ [])) × ((q : ℕ) → ¬ (In q (xs ++ (e ∷ []))) → h' q ≡ h q)

  -- On a heap that holds a doubly linked list and a cell outside it, BF_LIST_DLL_AP of that cell
  -- fails no assertion and ends, the heap then holds the list with the cell at its end, and every
  -- cell outside it is as before.
  pub bf_list_dll_ap-IsAppended :
      (l : Option ℕ) (xs : List ℕ)
      → IsDll h l xs
      → ¬ (In e xs)
      → Returns (bf_list_dll_ap asserts l e h) (IsAppended xs)
  bf_list_dll_ap-IsAppended l [] (empty, distinct) fresh =
      let c' = record c₁ { prev = some e } in
      (
        (written h₁ e c', some e),
        ap (λ p. bf_list_dll_ap asserts p e h) empty ∙ ap_empty,
        (
          ((c', refl, written_here h₁ e c', refl, refl), (fresh, tt)),
          λ q out.
              let other : e ≢ q = λ same. out (inl (sym same)) in
              written_other h₁ e q c' other ∙ written_other h e q c₁ other,
        ),
      )
  bf_list_dll_ap-IsAppended l (x ∷ xs) ((d, at, here, back, rest), distinct) fresh = by_extension (
      extended h heap₃ e (c₂ x z d m here back at_end off_front off_end) l z x xs m
        (d, at, here, back, rest) distinct at_end
        (written_here heap₂ z (record m { next = some e }))
        (λ q i far.
          written_other heap₂ z q (record m { next = some e }) (λ same. far (sym same))
          ∙ outside x z d m here back at_end off_front off_end q
              (λ same. fresh (subst (λ y. In y (x ∷ xs)) (sym same) i)))
        (written_other heap₂ z e (record m { next = some e }) (λ same. off_end (sym same))
          ∙ written_here h₁ e (c₂ x z d m here back at_end off_front off_end))
        refl back)
    where
      z : ℕ
      z = last_of x xs

      m : Cell
      m = (last_cell h h e c l z x xs (d, at, here, back, rest)).0

      at_end : h z ≡ some m
      at_end = (last_cell h h e c l z x xs (d, at, here, back, rest)).1

      off_front : e ≢ x
      off_front same = fresh (inl same)

      off_end : e ≢ z
      off_end same = fresh (subst (λ y. In y (x ∷ xs)) (sym same) (last-In h h e c x xs))

      heap₂ : Cells
      heap₂ = h₂ x z d m here back at_end off_front off_end

      heap₃ : Cells
      heap₃ = h₃ x z d m here back at_end off_front off_end

      by_extension :
          IsChain heap₃ l z (x ∷ (xs ++ (e ∷ [])))
          → Returns (bf_list_dll_ap asserts l e h) (IsAppended (x ∷ xs))
      by_extension (d₃, at₃, third, back₃, rest₃) =
          let d₄ = record d₃ { prev = some e } in
          let apart = snoc-IsDistinct (x ∷ xs) e distinct fresh in
          (
            (written heap₃ x d₄, some x),
            ap (λ p. bf_list_dll_ap asserts p e h) at
                ∙ ap_front x z d m here back at_end off_front off_end d₃ third,
            (
              (
                subst (λ b. IsChain (written heap₃ x d₄) (some x) b (x ∷ (xs ++ (e ∷ []))))
                    (sym (last_of-snoc x xs e))
                    (
                      d₄,
                      refl,
                      written_here heap₃ x d₄,
                      refl,
                      IsChain-kept heap₃ (written heap₃ x d₄) d₃.next x (xs ++ (e ∷ []))
                          (λ y i.
                            written_other heap₃ x y d₄
                              (λ same. apart.0 (subst (λ q. In q (xs ++ (e ∷ []))) (sym same) i)))
                          rest₃,
                    ),
                apart,
              ),
              λ q out.
                  let off_x : x ≢ q = λ same. out (inl (sym same)) in
                  let off_z : z ≢ q = λ same. out (
                    snoc-In q (x ∷ xs) e
                      (inl (subst (λ y. In y (x ∷ xs)) same (last-In h h e c x xs)))) in
                  let off_e : e ≢ q = λ same. out (snoc-In q (x ∷ xs) e (inr (sym same))) in
                  written_other heap₃ x q d₄ off_x
                  ∙ written_other heap₂ z q (record m { next = some e }) off_z
                  ∙ outside x z d m here back at_end off_front off_end q off_e,
            ),
          )
