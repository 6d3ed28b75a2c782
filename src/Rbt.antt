-- ===== src/Rbt.antt =====
-- src/rbt/rbt.c and include/target-utils/rbt/rbt.h: the nodes of a red-black tree, the heap that they
-- stand in, and the rotations. A pointer is `none` where it is NULL, else an address; reading or
-- writing through NULL or at an address that holds no node ends the process. Keys are `uint32_t`, and
-- `data` is a word. What `bf_sys_calloc` returns is an argument.
pub mod Search
pub mod Insert
pub mod Remove
pub mod Shape
pub mod AtMost
pub mod AtLeast
pub mod Ends
pub mod Keys
mod Tests
use target_utils.Base.{ℕ, Bool, true, false, Option, none, some, ltb, ◌==◌, if◌then◌else◌}
use target_utils.Base.Run.{Run, ok, abort, ◌>>=◌}

abbrev pub black : Bool
black = false

abbrev pub red : Bool
red = true

pub data RbtStatus : Type 0 where
  bf_rbt_ok bf_rbt_err bf_rbt_no_key bf_rbt_key_exists : RbtStatus

pub data Direction : Type 0 where
  bf_rbt_left_node bf_rbt_right_node bf_rbt_root_node : Direction

pub record Node : Type 0 where
  pub key : ℕ
  pub color : Bool
  pub left : Option ℕ
  pub right : Option ℕ
  pub parent : Option ℕ
  pub content : ℕ

-- The heap, and `*rbt_head`.
pub record Tree : Type 0 where
  pub heap : ℕ → Option Node
  pub rbt_head : Option ℕ

-- `*p`.
abbrev pub node_at : Tree → Option ℕ → Run Node
node_at t none = abort
node_at t (some p) = elim (t.heap p) [ none ↦ abort | some n ↦ ok n ]

abbrev pub put : Tree → ℕ → Option Node → Tree
put t p n = record t { heap = λ q. if p == q then n else t.heap q }

-- Assignments to fields of `*p`.
abbrev pub update : Tree → Option ℕ → (Node → Node) → Run Tree
update t none change = abort
update t (some p) change = do n ← node_at t (some p); ok (put t p (some (change n)))

abbrev pub is_null : Option ℕ → Bool
is_null none = true
is_null (some p) = false

-- `p == q` on pointers.
abbrev pub same : Option ℕ → Option ℕ → Bool
same none none = true
same none (some q) = false
same (some p) none = false
same (some p) (some q) = p == q

unfoldable pub bf_create_rbt_node : Option ℕ → ℕ → Option ℕ → Tree → Tree × Option ℕ
bf_create_rbt_node none key root t = (t, none)
bf_create_rbt_node (some p) key root t = (
  put t p (
      some
        (record { key = key; color = red; left = none; right = none; parent = root; content = 0 })),
  some p,
)

-- `if (g_child != NULL) g_child->parent = node;`.
abbrev pub adopt : Tree → Option ℕ → Option ℕ → Run Tree
adopt t none new_parent = ok t
adopt t (some g_child) new_parent = update t (some g_child) (λ n. record n { parent = new_parent })

-- `if (g_parent != NULL)`: the side at which the child hangs is told by the keys.
abbrev pub hang : Tree → Option ℕ → Option ℕ → Run Tree
hang t none child = ok t
hang t (some g_parent) child = do
  g ← node_at t (some g_parent)
  c ← node_at t child
  elim (ltb g.key c.key) [
    | true ↦ update t (some g_parent) (λ n. record n { right = child })
    | false ↦ update t (some g_parent) (λ n. record n { left = child })
  ]

-- `if (node == *rbt_head) *rbt_head = child;`.
abbrev pub move_head : Tree → Option ℕ → Option ℕ → Tree
move_head t node child = if same node t.rbt_head then record t { rbt_head = child } else t

unfoldable pub bf_right_rotate_rbt_node : Option ℕ → Tree → Run (Tree × Option ℕ)
bf_right_rotate_rbt_node node t = do
  n ← node_at t node
  l ← node_at t n.left
  t₁ ← update t n.left (λ x. record x { right = node; parent = n.parent })
  t₂ ← update t₁ node (λ x. record x { left = l.right; parent = n.left })
  t₃ ← update t₂ n.left (λ x. record x { color = n.color })
  t₄ ← update t₃ node (λ x. record x { color = l.color })
  t₅ ← adopt t₄ l.right node
  t₆ ← hang t₅ n.parent n.left
  ok (move_head t₆ node n.left, n.left)

unfoldable pub bf_left_rotate_rbt_node : Option ℕ → Tree → Run (Tree × Option ℕ)
bf_left_rotate_rbt_node node t = do
  n ← node_at t node
  r ← node_at t n.right
  t₁ ← update t n.right (λ x. record x { left = node; parent = n.parent })
  t₂ ← update t₁ node (λ x. record x { right = r.left; parent = n.right })
  t₃ ← update t₂ n.right (λ x. record x { color = n.color })
  t₄ ← update t₃ node (λ x. record x { color = r.color })
  t₅ ← adopt t₄ r.left node
  t₆ ← hang t₅ n.parent n.right
  ok (move_head t₆ node n.right, n.right)

unfoldable pub bf_perform_rotation : Option ℕ → ℕ → Tree → Run (Tree × Option ℕ)
unfolding bf_right_rotate_rbt_node bf_left_rotate_rbt_node
bf_perform_rotation parent key t = do
  n ← node_at t parent
  g ← node_at t n.parent
  elim (ltb g.key n.key) [
    | true ↦ elim (ltb n.key key) [
      | true ↦ bf_left_rotate_rbt_node n.parent t
      | false ↦ do (t₁, p) ← bf_right_rotate_rbt_node parent t; bf_left_rotate_rbt_node n.parent t₁
    ]
    | false ↦ elim (ltb n.key key) [
      | true ↦ do (t₁, p) ← bf_left_rotate_rbt_node parent t; bf_right_rotate_rbt_node n.parent t₁
      | false ↦ bf_right_rotate_rbt_node n.parent t
    ]
  ]
