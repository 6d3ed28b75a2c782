-- ===== src/Rbt/Keys.antt =====
-- The keys of a search tree in `bf_insert_rbt_entry` and `bf_remove_rbt_entry` of src/rbt/rbt.c.
use target_utils.Base.{
  ℕ, zero, suc, ◌<◌, ◌≡◌, refl, sym, ap, ◌∙◌, arith, Bool, true, false, Option, none, some, ltb,
  lt→ltb, le→ltb, ◌==◌, ==_iff, Bool-cases, inl, inr,
}
use target_utils.Base.Run.{Run, ok, ◌>>=◌}
use target_utils.Rbt.{bf_rbt_no_key, Node, Tree}
use target_utils.Rbt.Insert.{attach, insert_under, or_prev, descend, bf_insert_rbt_entry}
use target_utils.Rbt.Remove.{
  find_key, push_down, bf_bst_node_deletion, take_out, bf_remove_rbt_entry,
}
use target_utils.Rbt.Shape.{
  Shape, leaf, branch, Holds, Has, IsOrdered, height, height-left, height-right, read_node,
}

-- No node has the key.
abbrev pub Lacks : Shape → ℕ → Type 0
Lacks s key = (b : ℕ) → ¬ (Has s b key)

module _ (t : Tree) (key : ℕ) where
  -- A round of the loop of `bf_bst_node_deletion` that looks for the key, by its tests.
  abbrev find_round : ℕ → ℕ → Node → Bool → Bool → Run (Option ℕ)
  find_round fuel a n equal less = elim equal [
    | true ↦ ok (some a)
    | false ↦ elim less [ true ↦ find_key fuel n.right key t | false ↦ find_key fuel n.left key t ]
  ]

  find_step :
      (fuel a : ℕ) (n : Node) (p : Option ℕ)
      → p ≡ some a
      → t.heap a ≡ some n
      → find_key (suc fuel) p key t ≡ find_round fuel a n (n.key == key) (ltb n.key key)
  unfolding find_key
  find_step fuel a n p at there =
      ap (λ q. find_key (suc fuel) q key t) at
      ∙ read_node t a n (λ n. find_round fuel a n (n.key == key) (ltb n.key key)) there

  find_key-Lacks :
      (fuel : ℕ) (s : Shape) (p : Option ℕ)
      → Holds t p s
      → Lacks s key
      → height s < fuel
      → find_key fuel p key t ≡ ok none
  unfolding find_key
  find_key-Lacks zero s p h out high = absurd (omega arith)
  find_key-Lacks (suc fuel) leaf p h out high = ap (λ q. find_key (suc fuel) q key t) h
  find_key-Lacks (suc fuel) (branch l a k r) p (n, at, there, same, hl, hr) out high =
      find_step fuel a n p at there
      ∙ ap (λ b. find_round fuel a n b (ltb n.key key)) miss
      ∙ by_test (ltb n.key key)
          (find_key-Lacks fuel l n.left hl (λ b x. out b (inl x)) (height-left l r a k fuel high))
          (find_key-Lacks fuel r n.right hr (λ b x. out b (inr (inr x)))
            (height-right l r a k fuel high))
    where
      miss : (n.key == key) ≡ false
      miss = elim (Bool-cases (n.key == key)) [
        | inr e ↦ e
        | inl e ↦ absurd (out a (inr (inl (refl, sym ((==_iff n.key key).0 e) ∙ same))))
      ]

      by_test :
          (less : Bool)
          → find_key fuel n.left key t ≡ ok none
          → find_key fuel n.right key t ≡ ok none
          → find_round fuel a n false less ≡ ok none
      by_test true on_left on_right = on_right
      by_test false on_left on_right = on_left

  bf_bst_node_deletion-Lacks :
      (s : Shape) (p : Option ℕ)
      → Holds t p s
      → Lacks s key
      → (fuel : ℕ) → height s < fuel
      → bf_bst_node_deletion fuel key p t ≡ ok (t, none)
  unfolding bf_bst_node_deletion push_down
  bf_bst_node_deletion-Lacks s p h out zero high = absurd (omega arith)
  bf_bst_node_deletion-Lacks s p h out (suc fuel) high =
      ap (λ r. do found ← r; push_down (suc fuel) found t)
        (find_key-Lacks (suc fuel) s p h out high)

  -- On a tree without the key, in order or not, with more fuel than its height,
  -- `bf_remove_rbt_entry` ends with BF_RBT_NO_KEY and changes nothing.
  pub bf_remove_rbt_entry-Lacks :
      (s : Shape)
      → Holds t t.rbt_head s
      → Lacks s key
      → (fuel : ℕ) → height s < fuel
      → bf_remove_rbt_entry fuel key t ≡ ok (t, bf_rbt_no_key)
  unfolding bf_remove_rbt_entry take_out
  bf_remove_rbt_entry-Lacks s h out fuel high =
      ap (λ r. do (t', res) ← r; take_out fuel t' res)
        (bf_bst_node_deletion-Lacks s t.rbt_head h out fuel high)

  -- A round of the loop of `bf_insert_rbt_entry`, by its tests.
  abbrev descend_round : ℕ → ℕ → Node → Bool → Bool → Run (Option ℕ × Option ℕ)
  descend_round fuel a n less greater = elim less [
    | true ↦ descend fuel n.right (some a) key t
    | false ↦ elim greater [
      | true ↦ descend fuel n.left (some a) key t
      | false ↦ ok (some a, some a)
    ]
  ]

  descend_step :
      (fuel a : ℕ) (n : Node) (p prev : Option ℕ)
      → p ≡ some a
      → t.heap a ≡ some n
      → descend (suc fuel) p prev key t ≡ descend_round fuel a n (ltb n.key key) (ltb key n.key)
  unfolding descend
  descend_step fuel a n p prev at there =
      ap (λ q. descend (suc fuel) q prev key t) at
      ∙ read_node t a n (λ n. descend_round fuel a n (ltb n.key key) (ltb key n.key)) there

  -- The descent ends at the node with the key.
  descend-Has :
      (fuel : ℕ) (s : Shape) (p prev : Option ℕ) (a : ℕ)
      → Holds t p s
      → IsOrdered s
      → Has s a key
      → height s < fuel
      → descend fuel p prev key t ≡ ok (some a, some a)
  descend-Has zero s p prev a h o has high = absurd (omega arith)
  descend-Has (suc fuel) leaf p prev a h o has high = absurd has
  descend-Has (suc fuel) (branch l b k r) p prev a (n, at, there, same, hl, hr)
        (below, above, ol, or) (inl x) high =
      let down = below a key x in
      descend_step fuel b n p prev at there
      ∙ ap (λ t. descend_round fuel b n t (ltb key n.key)) (le→ltb n.key key (omega arith))
      ∙ ap (descend_round fuel b n false) (lt→ltb key n.key (omega arith))
      ∙ descend-Has fuel l n.left (some b) a hl ol x (height-left l r b k fuel high)
  descend-Has (suc fuel) (branch l b k r) p prev a (n, at, there, same, hl, hr)
        (below, above, ol, or) (inr (inr x)) high =
      let up = above a key x in
      descend_step fuel b n p prev at there
      ∙ ap (λ t. descend_round fuel b n t (ltb key n.key)) (lt→ltb n.key key (omega arith))
      ∙ descend-Has fuel r n.right (some b) a hr or x (height-right l r b k fuel high)
  descend-Has (suc fuel) (branch l b k r) p prev a (n, at, there, same, hl, hr)
        (below, above, ol, or) (inr (inl (here, level))) high =
      descend_step fuel b n p prev at there
      ∙ ap (λ t. descend_round fuel b n t (ltb key n.key)) (le→ltb n.key key (omega arith))
      ∙ ap (descend_round fuel b n false) (le→ltb key n.key (omega arith))
      ∙ ap (λ c. ok (some c, some c)) (sym here)

  node_of :
      (s : Shape) (p : Option ℕ) (a k : ℕ)
      → Holds t p s
      → Has s a k
      → (n : Node) × (t.heap a ≡ some n) × (n.key ≡ k)
  node_of leaf p a k h has = absurd has
  node_of (branch l b j r) p a k (n, at, there, same, hl, hr) (inl x) = node_of l n.left a k hl x
  node_of (branch l b j r) p a k (n, at, there, same, hl, hr) (inr (inr x)) =
      node_of r n.right a k hr x
  node_of (branch l b j r) p a k (n, at, there, same, hl, hr) (inr (inl (here, level))) =
      (n, ap t.heap here ∙ there, same ∙ sym level)

  insert_under_present :
      (a : ℕ) (n : Node) (fuel : ℕ) (new : Option ℕ)
      → t.heap a ≡ some n
      → n.key ≡ key
      → insert_under fuel new key t (some a) ≡ ok (t, some a)
  unfolding insert_under
  insert_under_present a n fuel new there same =
      read_node t a n
        (λ n. elim (n.key == key) [
          | true ↦ ok (t, some a)
          | false ↦ elim (ltb n.key key) [
            | true ↦ attach fuel new (λ p x. record x { right = p }) (some a) key t
            | false ↦ attach fuel new (λ p x. record x { left = p }) (some a) key t
          ]
        ])
        there
      ∙ ap
          (λ b. elim b [
            | true ↦ ok (t, some a)
            | false ↦ elim (ltb n.key key) [
              | true ↦ attach fuel new (λ p x. record x { right = p }) (some a) key t
              | false ↦ attach fuel new (λ p x. record x { left = p }) (some a) key t
            ]
          ])
          ((==_iff n.key key).1 same)

  -- On a search tree that has the key, with more fuel than its height, `bf_insert_rbt_entry` from
  -- its root ends in the node with the key and changes nothing, whatever address a new node would
  -- get.
  pub bf_insert_rbt_entry-Has :
      (s : Shape) (p : Option ℕ)
      → Holds t p s
      → IsOrdered s
      → (a : ℕ) → Has s a key
      → (fuel : ℕ) (new : Option ℕ) → height s < fuel
      → bf_insert_rbt_entry fuel new p key t ≡ ok (t, some a)
  unfolding bf_insert_rbt_entry
  bf_insert_rbt_entry-Has leaf p h o a has fuel new high = absurd has
  bf_insert_rbt_entry-Has (branch l b k r) p (n, at, root, same', hl, hr) o a has fuel new high =
      let found =
        descend-Has fuel (branch l b k r) (some b) (some b) a (n, refl, root, same', hl, hr) o has
          high in
      let (m, there, same) =
        node_of (branch l b k r) (some b) a key (n, refl, root, same', hl, hr) has in
      ap (λ q. bf_insert_rbt_entry fuel new q key t) at
      ∙ ap (λ x. do (found, prev) ← x; insert_under fuel new key t (or_prev found prev)) found
      ∙ insert_under_present a m fuel new there same
