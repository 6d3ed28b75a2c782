-- ===== src/Rbt/Insert.antt =====
-- src/rbt/rbt.c: the insertion of a key. Loops and recursion take fuel, one round for each node that
-- they may pass and one to end.
use target_utils.Base.{ℕ, zero, suc, true, false, Option, none, some, ltb, ◌==◌, if◌then◌else◌}
use target_utils.Base.Run.{Run, ok, out_of_fuel, ◌>>=◌}
use target_utils.Rbt.{
  Node, Tree, node_at, update, black, red, bf_create_rbt_node, bf_perform_rotation,
}
use target_utils.Rbt.Search.{bf_get_rbt_neigh_color}

-- The first argument is `bf_balance_rbt_post_insertion`, which calls this function.
unfoldable pub bf_color_fix_rbt_nodes :
    (Option ℕ → ℕ → Tree → Run Tree) → Option ℕ → Tree → Run Tree
bf_color_fix_rbt_nodes balance root t = do
  n ← node_at t root
  elim n.color [
    | false ↦ ok t
    | true ↦ do
      m ← node_at t n.parent
      let sibling = if ltb m.key n.key then m.left else m.right
      t₁ ← update t sibling (λ x. record x { color = black })
      t₂ ← update t₁ root (λ x. record x { color = black })
      elim m.parent [
        | none ↦ update t₂ n.parent (λ x. record x { color = black })
        | some g ↦ do
          t₃ ← update t₂ n.parent (λ x. record x { color = red })
          balance (some g) n.key t₃
      ]
  ]

unfoldable pub bf_balance_rbt_post_insertion : ℕ → Option ℕ → ℕ → Tree → Run Tree
unfolding bf_color_fix_rbt_nodes
bf_balance_rbt_post_insertion zero root key t = out_of_fuel
bf_balance_rbt_post_insertion (suc fuel) root key t = do
  n ← node_at t root
  elim n.color [
    | false ↦ ok t
    | true ↦ do
      neigh_color ← bf_get_rbt_neigh_color root t
      elim neigh_color [
        | true ↦ bf_color_fix_rbt_nodes (λ r k u. bf_balance_rbt_post_insertion fuel r k u) root t
        | false ↦ do (t', p) ← bf_perform_rotation root key t; ok t'
      ]
  ]

-- `while (root != NULL)`: `root` and `prev` at its end.
unfoldable pub descend : ℕ → Option ℕ → Option ℕ → ℕ → Tree → Run (Option ℕ × Option ℕ)
descend zero root prev key t = out_of_fuel
descend (suc fuel) none prev key t = ok (none, prev)
descend (suc fuel) (some p) prev key t = do
  n ← node_at t (some p)
  elim (ltb n.key key) [
    | true ↦ descend fuel n.right (some p) key t
    | false ↦ elim (ltb key n.key) [
      | true ↦ descend fuel n.left (some p) key t
      | false ↦ ok (some p, some p)
    ]
  ]

-- A new child of `root` on the side that the assignment names.
unfoldable pub attach :
    ℕ → Option ℕ → (Option ℕ → Node → Node) → Option ℕ → ℕ → Tree → Run (Tree × Option ℕ)
unfolding bf_create_rbt_node bf_balance_rbt_post_insertion
attach fuel new assign root key t = do
  let (t₁, child) = bf_create_rbt_node new key root t
  t₂ ← update t₁ root (assign child)
  elim child [
    | none ↦ ok (t₂, none)
    | some p ↦ do t₃ ← bf_balance_rbt_post_insertion fuel root key t₂; ok (t₃, some p)
  ]

-- The first key in an empty tree.
unfoldable pub first_key : Option ℕ → ℕ → Tree → Run (Tree × Option ℕ)
unfolding bf_create_rbt_node
first_key new key t =
    let (t₁, child) = bf_create_rbt_node new key none t in
    elim child [
      | none ↦ ok (t₁, none)
      | some p ↦ do
        t₂ ← update t₁ (some p) (λ x. record x { color = black })
        ok (record t₂ { rbt_head = some p }, some p)
    ]

-- `if (root == NULL) root = prev;`.
abbrev pub or_prev : Option ℕ → Option ℕ → Option ℕ
or_prev none prev = prev
or_prev (some p) prev = some p

-- What follows the descent: `root` is the node at which it ended.
unfoldable pub insert_under : ℕ → Option ℕ → ℕ → Tree → Option ℕ → Run (Tree × Option ℕ)
unfolding attach
insert_under fuel new key t root = do
  n ← node_at t root
  elim (n.key == key) [
    | true ↦ ok (t, root)
    | false ↦ elim (ltb n.key key) [
      | true ↦ attach fuel new (λ p x. record x { right = p }) root key t
      | false ↦ attach fuel new (λ p x. record x { left = p }) root key t
    ]
  ]

unfoldable pub bf_insert_rbt_entry : ℕ → Option ℕ → Option ℕ → ℕ → Tree → Run (Tree × Option ℕ)
unfolding descend insert_under first_key
bf_insert_rbt_entry fuel new none key t = first_key new key t
bf_insert_rbt_entry fuel new (some root) key t = do
  (found, prev) ← descend fuel (some root) (some root) key t
  insert_under fuel new key t (or_prev found prev)
