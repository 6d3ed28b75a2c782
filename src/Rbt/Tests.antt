-- ===== src/Rbt/Tests.antt =====
-- Runs of the red-black tree, and its theorems at a small tree.
use target_utils.Base.{
  ℕ, zero, suc, ◌+◌, ◌≡◌, refl, arith, Bool, Option, none, some, ◌==◌, if◌then◌else◌, List, [], ◌∷◌,
  ◌++◌, inl, inr,
}
use target_utils.Base.Run.{Run, ok, Returns, ◌>>=◌}
use target_utils.Rbt.{
  bf_rbt_no_key, Node, Tree, black, red, bf_create_rbt_node, bf_right_rotate_rbt_node,
  bf_left_rotate_rbt_node, bf_perform_rotation,
}
use target_utils.Rbt.Search.{
  leftmost, rightmost, bf_get_successor_rbt_node, bf_get_predecessor_rbt_node, lower_loop,
  bf_get_lower_bound, upper_loop, bf_get_upper_bound, bf_get_highest_key_node,
  bf_get_lowest_key_node, bf_get_rbt_node_direction, neighbor_of, bf_get_rbt_neigh_color,
  bf_get_neighbor_rbt_node,
}
use target_utils.Rbt.Insert.{
  bf_color_fix_rbt_nodes, bf_balance_rbt_post_insertion, descend, attach, first_key, insert_under,
  bf_insert_rbt_entry,
}
use target_utils.Rbt.Remove.{
  find_key, push_down, bf_bst_node_deletion, rotate_black, rotate_red, deletion_step, deletion_loop,
  bf_balance_rbt_post_deletion, unlink, take_out, bf_remove_rbt_entry,
}
use target_utils.Rbt.Shape.{Shape, leaf, branch, Holds, Has, IsOrdered}
use target_utils.Rbt.AtMost.{AtMost, bf_get_lower_bound-AtMost}
use target_utils.Rbt.AtLeast.{AtLeast, bf_get_upper_bound-AtLeast}
use target_utils.Rbt.Ends.{OrNull, IsHighest, IsLowest, key_nodes-AreEnds}
use target_utils.Rbt.Keys.{Lacks, bf_remove_rbt_entry-Lacks, bf_insert_rbt_entry-Has}

program : Unit {0}
unfolding bf_create_rbt_node bf_right_rotate_rbt_node bf_left_rotate_rbt_node bf_perform_rotation
    leftmost rightmost bf_get_successor_rbt_node bf_get_predecessor_rbt_node lower_loop
    bf_get_lower_bound upper_loop bf_get_upper_bound bf_get_highest_key_node bf_get_lowest_key_node
    bf_get_rbt_node_direction neighbor_of bf_get_rbt_neigh_color bf_get_neighbor_rbt_node
    bf_color_fix_rbt_nodes bf_balance_rbt_post_insertion descend attach first_key insert_under
    bf_insert_rbt_entry find_key push_down bf_bst_node_deletion rotate_black rotate_red
    deletion_step deletion_loop bf_balance_rbt_post_deletion unlink take_out bf_remove_rbt_entry
program = tt

abbrev empty_tree : Tree
empty_tree = record { heap = λ p. none; rbt_head = none }

-- Insertion of the keys, at addresses from the first.
abbrev insert_all : ℕ → List ℕ → Tree → Run Tree
unfolding bf_insert_rbt_entry
insert_all address [] t = ok t
insert_all address (key ∷ keys) t = do
  (t', p) ← bf_insert_rbt_entry 8 (some address) t.rbt_head key t
  insert_all (address + 1) keys t'

-- Keys in order with their colours, and how deep the tree is walked.
abbrev listing : ℕ → Option ℕ → Tree → List (ℕ × Bool)
listing zero p t = []
listing (suc fuel) none t = []
listing (suc fuel) (some p) t = elim (t.heap p) [
  | none ↦ []
  | some n ↦ listing fuel n.left t ++ (n.key, n.color) ∷ listing fuel n.right t
]

abbrev ascending : Run (Option ℕ × List (ℕ × Bool))
unfolding program
ascending = do
  t ← insert_all 1 (10 ∷ 20 ∷ 30 ∷ 40 ∷ 50 ∷ []) empty_tree
  ok (t.rbt_head, listing 8 t.rbt_head t)

ascending_balanced :
    ascending ≡ ok (some 2, (10, black) ∷ (20, black) ∷ (30, red) ∷ (40, black) ∷ (50, red) ∷ [])
unfolding program
ascending_balanced = refl

abbrev removed : Run (Option ℕ × List (ℕ × Bool))
unfolding program
removed = do
  t ← insert_all 1 (10 ∷ 20 ∷ 30 ∷ 40 ∷ 50 ∷ []) empty_tree
  (t', rc) ← bf_remove_rbt_entry 8 10 t
  ok (t'.rbt_head, listing 8 t'.rbt_head t')

removed_balanced : removed ≡ ok (some 4, (20, black) ∷ (30, red) ∷ (40, black) ∷ (50, black) ∷ [])
unfolding program
removed_balanced = refl

-- Three keys: 20 above 10 and 30.
abbrev leaf_node : ℕ → Node
leaf_node key = record {
  key = key;
  color = red;
  left = none;
  right = none;
  parent = some 2;
  content = 0;
}

abbrev top_node : Node
top_node = record {
  key = 20;
  color = black;
  left = some 1;
  right = some 3;
  parent = none;
  content = 0;
}

abbrev sample : Tree
sample = record {
  heap = λ p.
      if p == 1
      then some (leaf_node 10)
      else if p == 2
      then some top_node
      else if p == 3
      then some (leaf_node 30)
      else none;
  rbt_head = some 2;
}

abbrev sample_shape : Shape
sample_shape = branch (branch leaf 1 10 leaf) 2 20 (branch leaf 3 30 leaf)

sample-Holds : Holds sample (some 2) sample_shape
sample-Holds = (
  top_node,
  refl,
  refl,
  refl,
  (leaf_node 10, refl, refl, refl, refl, refl),
  (leaf_node 30, refl, refl, refl, refl, refl),
)

one-Has : (a k b j : ℕ) → Has (branch leaf a k leaf) b j → j ≡ k
one-Has a k b j (inl x) = absurd x
one-Has a k b j (inr (inl (here, level))) = level
one-Has a k b j (inr (inr x)) = absurd x

one-IsOrdered : (a k : ℕ) → IsOrdered (branch leaf a k leaf)
one-IsOrdered a k = (λ b j x. absurd x, λ b j x. absurd x, tt, tt)

sample-IsOrdered : IsOrdered sample_shape
sample-IsOrdered = (
  λ b j x. let e = one-Has 1 10 b j x in omega arith,
  λ b j x. let e = one-Has 3 30 b j x in omega arith,
  one-IsOrdered 1 10,
  one-IsOrdered 3 30,
)

sample-Lacks : Lacks sample_shape 25
sample-Lacks b (inl x) = let e = one-Has 1 10 b 25 x in omega arith
sample-Lacks b (inr (inl (here, level))) = omega arith
sample-Lacks b (inr (inr x)) = let e = one-Has 3 30 b 25 x in omega arith

bf_get_lower_bound-AtMost_example :
    Returns (bf_get_lower_bound 3 25 (some 2) sample) (AtMost sample_shape 25 none)
bf_get_lower_bound-AtMost_example =
    bf_get_lower_bound-AtMost sample 25 sample_shape (some 2) sample-Holds sample-IsOrdered 3
      (omega arith)

bf_get_upper_bound-AtLeast_example :
    Returns (bf_get_upper_bound 3 25 (some 2) sample) (AtLeast sample_shape 25 none)
bf_get_upper_bound-AtLeast_example =
    bf_get_upper_bound-AtLeast sample 25 sample_shape (some 2) sample-Holds sample-IsOrdered 3
      (omega arith)

key_nodes-AreEnds_example :
    Returns (bf_get_highest_key_node 2 (some 2) sample) (OrNull IsHighest sample_shape)
    × Returns (bf_get_lowest_key_node 2 (some 2) sample) (OrNull IsLowest sample_shape)
key_nodes-AreEnds_example =
    key_nodes-AreEnds sample sample_shape (some 2) sample-Holds sample-IsOrdered 2 (omega arith)

bf_remove_rbt_entry-Lacks_example : bf_remove_rbt_entry 3 25 sample ≡ ok (sample, bf_rbt_no_key)
bf_remove_rbt_entry-Lacks_example =
    bf_remove_rbt_entry-Lacks sample 25 sample_shape sample-Holds sample-Lacks 3 (omega arith)

bf_insert_rbt_entry-Has_example :
    bf_insert_rbt_entry 3 none (some 2) 30 sample ≡ ok (sample, some 3)
bf_insert_rbt_entry-Has_example =
    bf_insert_rbt_entry-Has sample 30 sample_shape (some 2) sample-Holds sample-IsOrdered 3
      (inr (inr (inr (inl (refl, refl))))) 3 none (omega arith)
