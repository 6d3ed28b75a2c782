-- ===== src/Rbt/Shape.antt =====
-- The search tree that a heap holds at a pointer, for the functions of src/rbt/rbt.c.
use target_utils.Base.{ℕ, suc, ◌<◌, ◌≡◌, ap, arith, Option, none, some, ltb, if◌then◌else◌, ◌⊎◌}
use target_utils.Base.Run.{Run, ok, abort, ◌>>=◌}
use target_utils.Rbt.{Node, Tree, node_at}

-- A tree of addresses and keys.
pub data Shape : Type 0 where
  leaf : Shape
  branch : Shape → ℕ → ℕ → Shape → Shape

-- The heap holds the shape at the pointer.
abbrev pub Holds : Tree → Option ℕ → Shape → Type 0
Holds t p leaf = p ≡ none
Holds t p (branch l a k r) =
    (n : Node) × (p ≡ some a)
    × (t.heap a ≡ some n)
    × (n.key ≡ k)
    × Holds t n.left l
    × Holds t n.right r

-- The node at an address has a key.
abbrev pub Has : Shape → ℕ → ℕ → Type 0
Has leaf a k = ⊥
Has (branch l b j r) a k = Has l a k ⊎ (((a ≡ b) × (k ≡ j)) ⊎ Has r a k)

-- A search tree: lower keys on the left, higher keys on the right.
abbrev pub IsOrdered : Shape → Type 0
IsOrdered leaf = Unit
IsOrdered (branch l a k r) =
    ((b j : ℕ) → Has l b j → j < k) × ((b j : ℕ) → Has r b j → k < j) × IsOrdered l × IsOrdered r

-- The number of nodes on the longest way down.
abbrev pub height : Shape → ℕ
height leaf = 0
height (branch l a k r) = suc (if ltb (height l) (height r) then height r else height l)

pub height-left :
    (l r : Shape) (a k fuel : ℕ) → height (branch l a k r) < suc fuel → height l < fuel
height-left l r a k fuel h = ground arith

pub height-right :
    (l r : Shape) (a k fuel : ℕ) → height (branch l a k r) < suc fuel → height r < fuel
height-right l r a k fuel h = ground arith

-- Code that reads a node goes on with the node that is there.
pub read_node {ℓ} :
    {A : Type ℓ} (t : Tree) (a : ℕ) (n : Node) (next : Node → Run A)
    → t.heap a ≡ some n
    → (node_at t (some a) >>= next) ≡ next n
read_node {A} t a n next there =
    ap (λ o. elim o as (λ x. Run Node) [ none ↦ abort | some m ↦ ok m ] >>= next) there
