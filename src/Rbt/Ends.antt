-- ===== src/Rbt/Ends.antt =====
-- `bf_get_highest_key_node` and `bf_get_lowest_key_node` of src/rbt/rbt.c on a search tree.
use target_utils.Base.{
  ℕ, zero, suc, ◌≤◌, ◌<◌, ◌≡◌, refl, ap, ◌∙◌, arith, Option, none, some, inl, inr,
}
use target_utils.Base.Run.{ok, Returns}
use target_utils.Rbt.{Node, Tree}
use target_utils.Rbt.Search.{leftmost, rightmost, bf_get_highest_key_node, bf_get_lowest_key_node}
use target_utils.Rbt.Shape.{
  Shape, leaf, branch, Holds, Has, IsOrdered, height, height-left, height-right, read_node,
}

-- The node with the greatest key, or with the least one.
abbrev pub IsHighest : Shape → Option ℕ → Type 0
IsHighest s p = (a : ℕ) × (k : ℕ) × (p ≡ some a) × Has s a k × ((b j : ℕ) → Has s b j → j ≤ k)

abbrev pub IsLowest : Shape → Option ℕ → Type 0
IsLowest s p = (a : ℕ) × (k : ℕ) × (p ≡ some a) × Has s a k × ((b j : ℕ) → Has s b j → k ≤ j)

-- NULL for the empty tree.
abbrev pub OrNull : (Shape → Option ℕ → Type 0) → Shape → Option ℕ → Type 0
OrNull IsEnd leaf p = p ≡ none
OrNull IsEnd (branch l a k r) p = IsEnd (branch l a k r) p

module _ (t : Tree) where
  rightmost_step :
      (fuel a : ℕ) (n : Node)
      → t.heap a ≡ some n
      → rightmost (suc fuel) (some a) t
        ≡ (elim n.right [ none ↦ ok (some a) | some q ↦ rightmost fuel (some q) t ])
  unfolding rightmost
  rightmost_step fuel a n there =
      read_node t a n
        (λ n. elim n.right [ none ↦ ok (some a) | some q ↦ rightmost fuel (some q) t ]) there

  rightmost-IsHighest :
      (fuel a k : ℕ) (l r : Shape) (n : Node)
      → t.heap a ≡ some n
      → Holds t n.right r
      → ((b j : ℕ) → Has l b j → j < k)
      → ((b j : ℕ) → Has r b j → k < j)
      → IsOrdered r
      → height r < fuel
      → Returns (rightmost fuel (some a) t) (IsHighest (branch l a k r))
  rightmost-IsHighest zero a k l r n there h below above o high = absurd (omega arith)
  rightmost-IsHighest (suc fuel) a k l leaf n there h below above o high = (
    some a,
    rightmost_step fuel a n there
        ∙ ap (λ q. elim q [ none ↦ ok (some a) | some q ↦ rightmost fuel (some q) t ]) h,
    (a, k, refl, inr (inl (refl, refl)), greatest),
  )
    where
      greatest : (c i : ℕ) → Has (branch l a k leaf) c i → i ≤ k
      greatest c i (inl x) = let down = below c i x in omega arith
      greatest c i (inr (inl (same, level))) = omega arith
      greatest c i (inr (inr x)) = absurd x
  rightmost-IsHighest (suc fuel) a k l (branch l' a' k' r') n there (m, at, there', same, hl, hr)
        below above (below', above', ol, or) high =
      go (
        rightmost-IsHighest fuel a' k' l' r' m there' hr below' above' or
          (height-right l' r' a' k' fuel high))
    where
      go :
          Returns (rightmost fuel (some a') t) (IsHighest (branch l' a' k' r'))
          → Returns
              (rightmost (suc fuel) (some a) t)
              (IsHighest (branch l a k (branch l' a' k' r')))
      go (v, run, (b, j, found, has, most)) = (
        v,
        rightmost_step fuel a n there
            ∙ ap (λ q. elim q [ none ↦ ok (some a) | some q ↦ rightmost fuel (some q) t ]) at
            ∙ run,
        (b, j, found, inr (inr has), greatest),
      )
        where
          greatest : (c i : ℕ) → Has (branch l a k (branch l' a' k' r')) c i → i ≤ j
          greatest c i (inl x) = let down = below c i x in let up = above b j has in omega arith
          greatest c i (inr (inl (same', level))) = let up = above b j has in omega arith
          greatest c i (inr (inr x)) = most c i x

  leftmost_step :
      (fuel a : ℕ) (n : Node)
      → t.heap a ≡ some n
      → leftmost (suc fuel) (some a) t
        ≡ (elim n.left [ none ↦ ok (some a) | some q ↦ leftmost fuel (some q) t ])
  unfolding leftmost
  leftmost_step fuel a n there =
      read_node t a n (λ n. elim n.left [ none ↦ ok (some a) | some q ↦ leftmost fuel (some q) t ])
        there

  leftmost-IsLowest :
      (fuel a k : ℕ) (l r : Shape) (n : Node)
      → t.heap a ≡ some n
      → Holds t n.left l
      → ((b j : ℕ) → Has l b j → j < k)
      → ((b j : ℕ) → Has r b j → k < j)
      → IsOrdered l
      → height l < fuel
      → Returns (leftmost fuel (some a) t) (IsLowest (branch l a k r))
  leftmost-IsLowest zero a k l r n there h below above o high = absurd (omega arith)
  leftmost-IsLowest (suc fuel) a k leaf r n there h below above o high = (
    some a,
    leftmost_step fuel a n there
        ∙ ap (λ q. elim q [ none ↦ ok (some a) | some q ↦ leftmost fuel (some q) t ]) h,
    (a, k, refl, inr (inl (refl, refl)), least),
  )
    where
      least : (c i : ℕ) → Has (branch leaf a k r) c i → k ≤ i
      least c i (inl x) = absurd x
      least c i (inr (inl (same, level))) = omega arith
      least c i (inr (inr x)) = let up = above c i x in omega arith
  leftmost-IsLowest (suc fuel) a k (branch l' a' k' r') r n there (m, at, there', same, hl, hr)
        below above (below', above', ol, or) high =
      go (
        leftmost-IsLowest fuel a' k' l' r' m there' hl below' above' ol
          (height-left l' r' a' k' fuel high))
    where
      go :
          Returns (leftmost fuel (some a') t) (IsLowest (branch l' a' k' r'))
          → Returns (leftmost (suc fuel) (some a) t) (IsLowest (branch (branch l' a' k' r') a k r))
      go (v, run, (b, j, found, has, most)) = (
        v,
        leftmost_step fuel a n there
            ∙ ap (λ q. elim q [ none ↦ ok (some a) | some q ↦ leftmost fuel (some q) t ]) at
            ∙ run,
        (b, j, found, inl has, least),
      )
        where
          least : (c i : ℕ) → Has (branch (branch l' a' k' r') a k r) c i → j ≤ i
          least c i (inl x) = most c i x
          least c i (inr (inl (same', level))) = let down = below b j has in omega arith
          least c i (inr (inr x)) = let up = above c i x in let down = below b j has in omega arith

  -- On a search tree, with as much fuel as its height, `bf_get_highest_key_node` ends in the node
  -- with the greatest key, or in NULL where the tree is empty.
  bf_get_highest_key_node-IsHighest :
      (s : Shape) (p : Option ℕ)
      → Holds t p s
      → IsOrdered s
      → (fuel : ℕ) → height s ≤ fuel
      → Returns (bf_get_highest_key_node fuel p t) (OrNull IsHighest s)
  unfolding bf_get_highest_key_node
  bf_get_highest_key_node-IsHighest leaf p h o fuel high =
      (none, ap (λ q. bf_get_highest_key_node fuel q t) h, refl)
  bf_get_highest_key_node-IsHighest (branch l a k r) p (n, at, there, same, hl, hr)
        (below, above, ol, or) fuel high =
      let (v, run, found) =
        rightmost-IsHighest fuel a k l r n there hr below above or (ground arith) in
      (v, ap (λ q. bf_get_highest_key_node fuel q t) at ∙ run, found)

  -- On a search tree, with as much fuel as its height, `bf_get_lowest_key_node` ends in the node
  -- with the least key, or in NULL where the tree is empty.
  bf_get_lowest_key_node-IsLowest :
      (s : Shape) (p : Option ℕ)
      → Holds t p s
      → IsOrdered s
      → (fuel : ℕ) → height s ≤ fuel
      → Returns (bf_get_lowest_key_node fuel p t) (OrNull IsLowest s)
  unfolding bf_get_lowest_key_node
  bf_get_lowest_key_node-IsLowest leaf p h o fuel high =
      (none, ap (λ q. bf_get_lowest_key_node fuel q t) h, refl)
  bf_get_lowest_key_node-IsLowest (branch l a k r) p (n, at, there, same, hl, hr)
        (below, above, ol, or) fuel high =
      let (v, run, found) =
        leftmost-IsLowest fuel a k l r n there hl below above ol (ground arith) in
      (v, ap (λ q. bf_get_lowest_key_node fuel q t) at ∙ run, found)

  -- On a search tree, with as much fuel as its height, `bf_get_highest_key_node` and
  -- `bf_get_lowest_key_node` end in the node with the greatest key and in the one with the least,
  -- or in NULL where the tree is empty.
  pub key_nodes-AreEnds :
      (s : Shape) (p : Option ℕ)
      → Holds t p s
      → IsOrdered s
      → (fuel : ℕ) → height s ≤ fuel
      → Returns (bf_get_highest_key_node fuel p t) (OrNull IsHighest s)
        × Returns (bf_get_lowest_key_node fuel p t) (OrNull IsLowest s)
  key_nodes-AreEnds s p h o fuel high = (
    bf_get_highest_key_node-IsHighest s p h o fuel high,
    bf_get_lowest_key_node-IsLowest s p h o fuel high,
  )
