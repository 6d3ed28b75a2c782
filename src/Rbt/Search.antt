-- ===== src/Rbt/Search.antt =====
-- src/rbt/rbt.c: the functions that only read the tree. A loop takes fuel, one round for each node
-- that it may pass and one to end.
use target_utils.Base.{
  ℕ, zero, suc, Bool, true, false, ◌||◌, Option, none, some, ltb, ◌==◌, if◌then◌else◌,
}
use target_utils.Base.Run.{Run, ok, out_of_fuel, ◌>>=◌}
use target_utils.Rbt.{
  Direction, bf_rbt_left_node, bf_rbt_right_node, bf_rbt_root_node, Node, Tree, node_at, black,
}

-- `while (p->left != NULL) p = p->left;`.
unfoldable pub leftmost : ℕ → Option ℕ → Tree → Run (Option ℕ)
leftmost zero p t = out_of_fuel
leftmost (suc fuel) p t = do
  n ← node_at t p
  elim n.left [ none ↦ ok p | some q ↦ leftmost fuel (some q) t ]

-- `while (p->right != NULL) p = p->right;`.
unfoldable pub rightmost : ℕ → Option ℕ → Tree → Run (Option ℕ)
rightmost zero p t = out_of_fuel
rightmost (suc fuel) p t = do
  n ← node_at t p
  elim n.right [ none ↦ ok p | some q ↦ rightmost fuel (some q) t ]

unfoldable pub bf_get_successor_rbt_node : ℕ → Option ℕ → Tree → Run (Option ℕ)
unfolding leftmost
bf_get_successor_rbt_node fuel root t = do
  n ← node_at t root
  elim n.right [ none ↦ ok none | some q ↦ leftmost fuel (some q) t ]

unfoldable pub bf_get_predecessor_rbt_node : ℕ → Option ℕ → Tree → Run (Option ℕ)
unfolding rightmost
bf_get_predecessor_rbt_node fuel root t = do
  n ← node_at t root
  elim n.left [ none ↦ ok none | some q ↦ rightmost fuel (some q) t ]

-- The loop of `bf_get_lower_bound`.
unfoldable pub lower_loop : ℕ → ℕ → Option ℕ → Option ℕ → Tree → Run (Option ℕ)
lower_loop zero key root lower_bound t = out_of_fuel
lower_loop (suc fuel) key none lower_bound t = ok lower_bound
lower_loop (suc fuel) key (some p) lower_bound t = do
  n ← node_at t (some p)
  elim (n.key == key) [
    | true ↦ ok (some p)
    | false ↦ elim (ltb key n.key) [
      | true ↦ lower_loop fuel key n.left lower_bound t
      | false ↦ lower_loop fuel key n.right (some p) t
    ]
  ]

unfoldable pub bf_get_lower_bound : ℕ → ℕ → Option ℕ → Tree → Run (Option ℕ)
unfolding lower_loop
bf_get_lower_bound fuel key rbt_head t = lower_loop fuel key rbt_head none t

-- The loop of `bf_get_upper_bound`.
unfoldable pub upper_loop : ℕ → ℕ → Option ℕ → Option ℕ → Tree → Run (Option ℕ)
upper_loop zero key root upper_bound t = out_of_fuel
upper_loop (suc fuel) key none upper_bound t = ok upper_bound
upper_loop (suc fuel) key (some p) upper_bound t = do
  n ← node_at t (some p)
  elim (n.key == key) [
    | true ↦ ok (some p)
    | false ↦ elim (ltb n.key key) [
      | true ↦ upper_loop fuel key n.right upper_bound t
      | false ↦ upper_loop fuel key n.left (some p) t
    ]
  ]

unfoldable pub bf_get_upper_bound : ℕ → ℕ → Option ℕ → Tree → Run (Option ℕ)
unfolding upper_loop
bf_get_upper_bound fuel key rbt_head t = upper_loop fuel key rbt_head none t

unfoldable pub bf_get_highest_key_node : ℕ → Option ℕ → Tree → Run (Option ℕ)
unfolding rightmost
bf_get_highest_key_node fuel none t = ok none
bf_get_highest_key_node fuel (some p) t = rightmost fuel (some p) t

unfoldable pub bf_get_lowest_key_node : ℕ → Option ℕ → Tree → Run (Option ℕ)
unfolding leftmost
bf_get_lowest_key_node fuel none t = ok none
bf_get_lowest_key_node fuel (some p) t = leftmost fuel (some p) t

-- `p != NULL && p->key == key`.
abbrev pub holds_key : Tree → Option ℕ → ℕ → Run Bool
holds_key t none key = ok false
holds_key t (some p) key = do n ← node_at t (some p); ok (n.key == key)

unfoldable pub bf_get_rbt_node_direction : Option ℕ → Tree → Run Direction
bf_get_rbt_node_direction root t = do
  n ← node_at t root
  elim n.parent [
    | none ↦ ok bf_rbt_root_node
    | some p ↦ do
      m ← node_at t (some p)
      elim (ltb m.key n.key) [
        | true ↦ ok bf_rbt_right_node
        | false ↦ do
          on_right ← holds_key t m.right n.key
          ok (if on_right then bf_rbt_right_node else bf_rbt_left_node)
      ]
  ]

-- The tests that `bf_get_rbt_neigh_color` and `bf_get_neighbor_rbt_node` share: the child of the
-- parent on the other side, or NULL.
unfoldable pub neighbor_of : Node → Node → Tree → Run (Option ℕ)
neighbor_of n m t = do
  on_right ← holds_key t m.right n.key
  elim (on_right || ltb m.key n.key) [
    | true ↦ ok m.left
    | false ↦ do
      on_left ← holds_key t m.left n.key
      ok (if on_left || ltb n.key m.key then m.right else none)
  ]

unfoldable pub bf_get_rbt_neigh_color : Option ℕ → Tree → Run Bool
unfolding neighbor_of
bf_get_rbt_neigh_color root t = do
  n ← node_at t root
  elim n.parent [
    | none ↦ ok black
    | some p ↦ do
      m ← node_at t (some p)
      q ← neighbor_of n m t
      elim q [ none ↦ ok black | some q ↦ do x ← node_at t (some q); ok x.color ]
  ]

unfoldable pub bf_get_neighbor_rbt_node : Option ℕ → Tree → Run (Option ℕ)
unfolding neighbor_of
bf_get_neighbor_rbt_node root t = do
  n ← node_at t root
  elim n.parent [ none ↦ ok none | some p ↦ do m ← node_at t (some p); neighbor_of n m t ]
