-- ===== src/Rbt/AtMost.antt =====
-- `bf_get_lower_bound` of src/rbt/rbt.c on a search tree.
use target_utils.Base.{
  ℕ, zero, suc, ◌≤◌, ◌<◌, ◌≡◌, refl, sym, ap, ◌∙◌, arith, Bool, true, false, Option, none, some,
  ltb, ltb→lt, ltb→le, ◌==◌, ==_iff, Bool-cases, ◌⊎◌, inl, inr,
}
use target_utils.Base.Run.{Run, ok, Returns}
use target_utils.Rbt.{Node, Tree}
use target_utils.Rbt.Search.{lower_loop, bf_get_lower_bound}
use target_utils.Rbt.Shape.{
  Shape, leaf, branch, Holds, Has, IsOrdered, height, height-left, height-right, read_node,
}

-- The node with the greatest key that is at most the given one, or `other` where there is none.
abbrev pub AtMost : Shape → ℕ → Option ℕ → Option ℕ → Type 0
AtMost s key other p =
    ((a : ℕ) × (k : ℕ) × (p ≡ some a)
      × Has s a k
      × (k ≤ key)
      × ((b j : ℕ) → Has s b j → j ≤ key → j ≤ k))
    ⊎ ((p ≡ other) × ((b j : ℕ) → Has s b j → key < j))

module _ (t : Tree) (key : ℕ) where
  -- A round of the loop of `bf_get_lower_bound`, by its two tests.
  abbrev lower_round : ℕ → ℕ → Node → Option ℕ → Bool → Bool → Run (Option ℕ)
  lower_round fuel a n acc equal greater = elim equal [
    | true ↦ ok (some a)
    | false ↦ elim greater [
      | true ↦ lower_loop fuel key n.left acc t
      | false ↦ lower_loop fuel key n.right (some a) t
    ]
  ]

  lower_step :
      (fuel a : ℕ) (n : Node) (p acc : Option ℕ)
      → p ≡ some a
      → t.heap a ≡ some n
      → lower_loop (suc fuel) key p acc t ≡ lower_round fuel a n acc (n.key == key) (ltb key n.key)
  unfolding lower_loop
  lower_step fuel a n p acc at there =
      ap (λ q. lower_loop (suc fuel) key q acc t) at
      ∙ read_node t a n (λ n. lower_round fuel a n acc (n.key == key) (ltb key n.key)) there

  -- At a branch whose key is above, the answer is that of the left subtree; at one whose key is
  -- below, it is that of the right subtree or the branch itself.
  AtMost-left :
      (l r : Shape) (a k : ℕ) (acc p : Option ℕ)
      → ((b j : ℕ) → Has r b j → k < j)
      → key < k
      → AtMost l key acc p
      → AtMost (branch l a k r) key acc p
  AtMost-left l r a k acc p above high (inl (b, j, at, here, le, most)) =
      inl (b, j, at, inl here, le, greatest)
    where
      greatest : (c i : ℕ) → Has (branch l a k r) c i → i ≤ key → i ≤ j
      greatest c i (inl x) small = most c i x small
      greatest c i (inr (inl (same, level))) small = omega arith
      greatest c i (inr (inr x)) small = let up = above c i x in omega arith
  AtMost-left l r a k acc p above high (inr (at, none_there)) = inr (at, out)
    where
      out : (c i : ℕ) → Has (branch l a k r) c i → key < i
      out c i (inl x) = none_there c i x
      out c i (inr (inl (same, level))) = omega arith
      out c i (inr (inr x)) = let up = above c i x in omega arith

  AtMost-right :
      (l r : Shape) (a k : ℕ) (acc p : Option ℕ)
      → ((b j : ℕ) → Has l b j → j < k)
      → k ≤ key
      → AtMost r key (some a) p
      → ((b j : ℕ) → Has r b j → k < j)
      → AtMost (branch l a k r) key acc p
  AtMost-right l r a k acc p below low (inl (b, j, at, here, le, most)) above =
      inl (b, j, at, inr (inr here), le, greatest)
    where
      greatest : (c i : ℕ) → Has (branch l a k r) c i → i ≤ key → i ≤ j
      greatest c i (inl x) small = let down = below c i x in let up = above b j here in omega arith
      greatest c i (inr (inl (same, level))) small = let up = above b j here in omega arith
      greatest c i (inr (inr x)) small = most c i x small
  AtMost-right l r a k acc p below low (inr (at, none_there)) above =
      inl (a, k, at, inr (inl (refl, refl)), low, greatest)
    where
      greatest : (c i : ℕ) → Has (branch l a k r) c i → i ≤ key → i ≤ k
      greatest c i (inl x) small = let down = below c i x in omega arith
      greatest c i (inr (inl (same, level))) small = omega arith
      greatest c i (inr (inr x)) small = let out = none_there c i x in omega arith

  AtMost-here :
      (l r : Shape) (a k : ℕ) (acc : Option ℕ)
      → ((b j : ℕ) → Has l b j → j < k)
      → key ≡ k
      → AtMost (branch l a k r) key acc (some a)
  AtMost-here l r a k acc below level =
      inl (a, k, refl, inr (inl (refl, refl)), omega arith, λ c i x small. omega arith)

  lower_branch :
      (fuel a k : ℕ) (l r : Shape) (n : Node) (p acc : Option ℕ)
      → p ≡ some a
      → t.heap a ≡ some n
      → n.key ≡ k
      → ((b j : ℕ) → Has l b j → j < k)
      → ((b j : ℕ) → Has r b j → k < j)
      → Returns (lower_loop fuel key n.left acc t) (AtMost l key acc)
      → Returns (lower_loop fuel key n.right (some a) t) (AtMost r key (some a))
      → Returns (lower_loop (suc fuel) key p acc t) (AtMost (branch l a k r) key acc)
  lower_branch fuel a k l r n p acc at there same below above (vl, run_l, found_l)
        (vr, run_r, found_r) =
      let step = lower_step fuel a n p acc at there in
      elim (Bool-cases (n.key == key)) [
        | inl hit ↦ (
          some a,
          step ∙ ap (λ b. lower_round fuel a n acc b (ltb key n.key)) hit,
          AtMost-here l r a k acc below (sym ((==_iff n.key key).0 hit) ∙ same),
        )
        | inr miss ↦
            let missed = step ∙ ap (λ b. lower_round fuel a n acc b (ltb key n.key)) miss in
            elim (Bool-cases (ltb key n.key)) [
              | inl high ↦ (
                vl,
                missed ∙ ap (lower_round fuel a n acc false) high ∙ run_l,
                AtMost-left l r a k acc vl above (let h = ltb→lt key n.key high in omega arith)
                    found_l,
              )
              | inr low ↦ (
                vr,
                missed ∙ ap (lower_round fuel a n acc false) low ∙ run_r,
                AtMost-right l r a k acc vr below (let h = ltb→le key n.key low in omega arith)
                    found_r above,
              )
            ]
      ]

  lower_loop-AtMost :
      (fuel : ℕ) (s : Shape) (p acc : Option ℕ)
      → Holds t p s
      → IsOrdered s
      → height s < fuel
      → Returns (lower_loop fuel key p acc t) (AtMost s key acc)
  unfolding lower_loop
  lower_loop-AtMost zero s p acc h o high = absurd (omega arith)
  lower_loop-AtMost (suc fuel) leaf p acc h o high =
      (acc, ap (λ q. lower_loop (suc fuel) key q acc t) h, inr (refl, λ b j x. absurd x))
  lower_loop-AtMost (suc fuel) (branch l a k r) p acc (n, at, there, same, hl, hr)
        (below, above, ol, or) high =
      lower_branch fuel a k l r n p acc at there same below above
        (lower_loop-AtMost fuel l n.left acc hl ol (height-left l r a k fuel high))
        (lower_loop-AtMost fuel r n.right (some a) hr or (height-right l r a k fuel high))

  -- On a search tree, with more fuel than its height, `bf_get_lower_bound` ends in the node with
  -- the greatest key that is at most the given one, or in NULL where every key is greater.
  pub bf_get_lower_bound-AtMost :
      (s : Shape) (p : Option ℕ)
      → Holds t p s
      → IsOrdered s
      → (fuel : ℕ) → height s < fuel
      → Returns (bf_get_lower_bound fuel key p t) (AtMost s key none)
  unfolding bf_get_lower_bound
  bf_get_lower_bound-AtMost s p h o fuel high = lower_loop-AtMost fuel s p none h o high
