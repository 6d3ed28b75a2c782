-- ===== src/Rbt/Remove.antt =====
-- src/rbt/rbt.c: the removal of a key. A loop takes fuel, one round for each node that it may pass
-- and one to end.
use target_utils.Base.{
  ℕ, zero, suc, Bool, true, false, ◌&&◌, Option, none, some, ltb, ◌==◌, if◌then◌else◌,
}
use target_utils.Base.Run.{Run, ok, out_of_fuel, ◌>>=◌}
use target_utils.Rbt.{
  RbtStatus, bf_rbt_ok, bf_rbt_no_key, Direction, bf_rbt_left_node, bf_rbt_right_node,
  bf_rbt_root_node, Node, Tree, node_at, put, update, is_null, black, red, bf_right_rotate_rbt_node,
  bf_left_rotate_rbt_node,
}
use target_utils.Rbt.Search.{
  bf_get_successor_rbt_node, bf_get_predecessor_rbt_node, bf_get_rbt_node_direction,
  bf_get_neighbor_rbt_node,
}

-- `while (root_node != NULL && root_node->key != key)`.
unfoldable pub find_key : ℕ → Option ℕ → ℕ → Tree → Run (Option ℕ)
find_key zero root_node key t = out_of_fuel
find_key (suc fuel) none key t = ok none
find_key (suc fuel) (some p) key t = do
  n ← node_at t (some p)
  elim (n.key == key) [
    | true ↦ ok (some p)
    | false ↦ elim (ltb n.key key) [
      | true ↦ find_key fuel n.right key t
      | false ↦ find_key fuel n.left key t
    ]
  ]

-- `while (root_node != NULL)`: the node that is to be freed, with its colour in `*color`, which the
-- code sets before it returns a node.
unfoldable pub push_down : ℕ → Option ℕ → Tree → Run (Tree × Option (ℕ × Bool))
push_down zero root_node t = out_of_fuel
push_down (suc fuel) none t = ok (t, none)
push_down (suc fuel) (some p) t = do
  n ← node_at t (some p)
  elim (is_null n.right && is_null n.left) [
    | true ↦ ok (t, some (p, n.color))
    | false ↦ do
      successor ← bf_get_successor_rbt_node fuel (some p) t
      replacement ← elim successor [
        | none ↦ bf_get_predecessor_rbt_node fuel (some p) t
        | some q ↦ ok (some q)
      ]
      r ← node_at t replacement
      t' ← update t (some p) (λ x. record x { key = r.key; content = r.content })
      push_down fuel replacement t'
  ]

unfoldable pub bf_bst_node_deletion : ℕ → ℕ → Option ℕ → Tree → Run (Tree × Option (ℕ × Bool))
unfolding find_key push_down
bf_bst_node_deletion fuel key rbt_head t = do
  found ← find_key fuel rbt_head key t
  push_down fuel found t

-- `p == NULL || p->color == BLACK`.
abbrev pub is_black : Tree → Option ℕ → Run Bool
is_black t none = ok true
is_black t (some p) = do n ← node_at t (some p); ok (if n.color then false else true)

-- No RED child.
abbrev pub red_free : Tree → Node → Run Bool
red_free t neigh = do
  on_right ← is_black t neigh.right
  on_left ← is_black t neigh.left
  ok (on_right && on_left)

-- `if (neigh_node != NULL) neigh_node->color = RED;` and what follows: the node of the next round, if
-- the tree is still out of balance.
abbrev pub recolor : Option ℕ → Option ℕ → Option ℕ → Tree → Run (Tree × Option (Option ℕ))
recolor start parent neigh t = do
  t₁ ← elim neigh [ none ↦ ok t | some q ↦ update t (some q) (λ x. record x { color = red }) ]
  m ← node_at t₁ parent
  elim m.color [
    | true ↦ do t₂ ← update t₁ parent (λ x. record x { color = black }); ok (t₂, none)
    | false ↦ ok (t₁, some parent)
  ]

-- A BLACK neighbour with a RED child. The last argument is the value of `node_dir`.
unfoldable pub rotate_black :
    Option ℕ → Option ℕ → Option ℕ → Tree → Direction → Run (Tree × Option (Option ℕ))
rotate_black node parent neigh t bf_rbt_root_node = ok (t, some node)
rotate_black node parent neigh t bf_rbt_left_node = do
  n ← node_at t neigh
  far_black ← is_black t n.right
  elim far_black [
    | false ↦ do
      (t₁, p) ← bf_left_rotate_rbt_node parent t
      n₁ ← node_at t₁ neigh
      t₂ ← update t₁ n₁.right (λ x. record x { color = black })
      ok (t₂, none)
    | true ↦ do
      near_black ← is_black t n.left
      elim near_black [
        | true ↦ ok (t, some node)
        | false ↦ do (t₁, p) ← bf_right_rotate_rbt_node neigh t; ok (t₁, some node)
      ]
  ]
rotate_black node parent neigh t bf_rbt_right_node = do
  n ← node_at t neigh
  far_black ← is_black t n.left
  elim far_black [
    | false ↦ do
      (t₁, p) ← bf_right_rotate_rbt_node parent t
      n₁ ← node_at t₁ neigh
      t₂ ← update t₁ n₁.left (λ x. record x { color = black })
      ok (t₂, none)
    | true ↦ do
      near_black ← is_black t n.right
      elim near_black [
        | true ↦ ok (t, some node)
        | false ↦ do (t₁, p) ← bf_left_rotate_rbt_node neigh t; ok (t₁, some node)
      ]
  ]

-- A RED neighbour.
unfoldable pub rotate_red : Option ℕ → Option ℕ → Tree → Direction → Run (Tree × Option (Option ℕ))
rotate_red node parent t bf_rbt_right_node = do
  (t₁, p) ← bf_right_rotate_rbt_node parent t
  ok (t₁, some node)
rotate_red node parent t bf_rbt_left_node = do
  (t₁, p) ← bf_left_rotate_rbt_node parent t
  ok (t₁, some node)
rotate_red node parent t bf_rbt_root_node = do
  (t₁, p) ← bf_left_rotate_rbt_node parent t
  ok (t₁, some node)

-- One round on a node with a parent.
unfoldable pub deletion_step : Option ℕ → Option ℕ → Tree → Run (Tree × Option (Option ℕ))
unfolding rotate_black rotate_red
deletion_step node parent t = do
  neigh ← bf_get_neighbor_rbt_node node t
  node_dir ← bf_get_rbt_node_direction node t
  elim neigh [
    | none ↦ recolor node parent none t
    | some q ↦ do
      n ← node_at t (some q)
      elim n.color [
        | true ↦ rotate_red node parent t node_dir
        | false ↦ do
          childless ← red_free t n
          elim childless [
            | true ↦ recolor node parent (some q) t
            | false ↦ rotate_black node parent (some q) t node_dir
          ]
      ]
  ]

-- `while (imbalance_tree != false && node != NULL)`.
unfoldable pub deletion_loop : ℕ → Option ℕ → Tree → Run Tree
unfolding deletion_step
deletion_loop zero start t = out_of_fuel
deletion_loop (suc fuel) none t = ok t
deletion_loop (suc fuel) (some p) t = do
  n ← node_at t (some p)
  elim n.parent [
    | none ↦ ok t
    | some q ↦ do
      (t', next) ← deletion_step (some p) (some q) t
      elim next [ none ↦ ok t' | some next_node ↦ deletion_loop fuel next_node t' ]
  ]

unfoldable pub bf_balance_rbt_post_deletion : ℕ → Option ℕ → Tree → Run Tree
unfolding deletion_loop
bf_balance_rbt_post_deletion fuel node t = do
  t' ← deletion_loop fuel node t
  head ← node_at t' t'.rbt_head
  elim head.color [ true ↦ update t' t'.rbt_head (λ x. record x { color = black }) | false ↦ ok t' ]

-- What the parent, or `*rbt_head`, loses.
unfoldable pub unlink : Option ℕ → Option ℕ → Tree → Run Tree
unlink none res_node t = ok (record t { rbt_head = none })
unlink (some q) res_node t = do
  child_dir ← bf_get_rbt_node_direction res_node t
  elim child_dir [
    | bf_rbt_left_node ↦ update t (some q) (λ x. record x { left = none })
    | bf_rbt_right_node ↦ update t (some q) (λ x. record x { right = none })
    | bf_rbt_root_node ↦ update t (some q) (λ x. record x { right = none })
  ]

-- What follows the search; `bf_sys_free` takes the node out of the heap.
unfoldable pub take_out : ℕ → Tree → Option (ℕ × Bool) → Run (Tree × RbtStatus)
unfolding bf_balance_rbt_post_deletion unlink
take_out fuel t none = ok (t, bf_rbt_no_key)
take_out fuel t (some (p, color)) = do
  t₁ ← elim color [ true ↦ ok t | false ↦ bf_balance_rbt_post_deletion fuel (some p) t ]
  n ← node_at t₁ (some p)
  t₂ ← unlink n.parent (some p) t₁
  ok (put t₂ p none, bf_rbt_ok)

unfoldable pub bf_remove_rbt_entry : ℕ → ℕ → Tree → Run (Tree × RbtStatus)
unfolding bf_bst_node_deletion take_out
bf_remove_rbt_entry fuel key t = do
  (t₁, res) ← bf_bst_node_deletion fuel key t.rbt_head t
  take_out fuel t₁ res
