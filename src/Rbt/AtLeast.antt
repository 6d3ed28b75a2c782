-- ===== src/Rbt/AtLeast.antt =====
-- `bf_get_upper_bound` of src/rbt/rbt.c on a search tree.
use target_utils.Base.{
  ℕ, zero, suc, ◌≤◌, ◌<◌, ◌≡◌, refl, sym, ap, ◌∙◌, arith, Bool, true, false, Option, none, some,
  ltb, ltb→lt, ltb→le, ◌==◌, ==_iff, Bool-cases, ◌⊎◌, inl, inr,
}
use target_utils.Base.Run.{Run, ok, Returns}
use target_utils.Rbt.{Node, Tree}
use target_utils.Rbt.Search.{upper_loop, bf_get_upper_bound}
use target_utils.Rbt.Shape.{
  Shape, leaf, branch, Holds, Has, IsOrdered, height, height-left, height-right, read_node,
}

-- The node with the least key that is at least the given one, or `other` where there is none.
abbrev pub AtLeast : Shape → ℕ → Option ℕ → Option ℕ → Type 0
AtLeast s key other p =
    ((a : ℕ) × (k : ℕ) × (p ≡ some a)
      × Has s a k
      × (key ≤ k)
      × ((b j : ℕ) → Has s b j → key ≤ j → k ≤ j))
    ⊎ ((p ≡ other) × ((b j : ℕ) → Has s b j → j < key))

module _ (t : Tree) (key : ℕ) where
  -- A round of the loop of `bf_get_upper_bound`, by its two tests.
  abbrev upper_round : ℕ → ℕ → Node → Option ℕ → Bool → Bool → Run (Option ℕ)
  upper_round fuel a n acc equal less = elim equal [
    | true ↦ ok (some a)
    | false ↦ elim less [
      | true ↦ upper_loop fuel key n.right acc t
      | false ↦ upper_loop fuel key n.left (some a) t
    ]
  ]

  upper_step :
      (fuel a : ℕ) (n : Node) (p acc : Option ℕ)
      → p ≡ some a
      → t.heap a ≡ some n
      → upper_loop (suc fuel) key p acc t ≡ upper_round fuel a n acc (n.key == key) (ltb n.key key)
  unfolding upper_loop
  upper_step fuel a n p acc at there =
      ap (λ q. upper_loop (suc fuel) key q acc t) at
      ∙ read_node t a n (λ n. upper_round fuel a n acc (n.key == key) (ltb n.key key)) there

  -- At a branch whose key is below, the answer is that of the right subtree; at one whose key is
  -- above, it is that of the left subtree or the branch itself.
  AtLeast-right :
      (l r : Shape) (a k : ℕ) (acc p : Option ℕ)
      → ((b j : ℕ) → Has l b j → j < k)
      → k < key
      → AtLeast r key acc p
      → AtLeast (branch l a k r) key acc p
  AtLeast-right l r a k acc p below low (inl (b, j, at, here, le, most)) =
      inl (b, j, at, inr (inr here), le, least)
    where
      least : (c i : ℕ) → Has (branch l a k r) c i → key ≤ i → j ≤ i
      least c i (inr (inr x)) large = most c i x large
      least c i (inr (inl (same, level))) large = omega arith
      least c i (inl x) large = let down = below c i x in omega arith
  AtLeast-right l r a k acc p below low (inr (at, none_there)) = inr (at, out)
    where
      out : (c i : ℕ) → Has (branch l a k r) c i → i < key
      out c i (inr (inr x)) = none_there c i x
      out c i (inr (inl (same, level))) = omega arith
      out c i (inl x) = let down = below c i x in omega arith

  AtLeast-left :
      (l r : Shape) (a k : ℕ) (acc p : Option ℕ)
      → ((b j : ℕ) → Has r b j → k < j)
      → key ≤ k
      → AtLeast l key (some a) p
      → ((b j : ℕ) → Has l b j → j < k)
      → AtLeast (branch l a k r) key acc p
  AtLeast-left l r a k acc p above high (inl (b, j, at, here, le, most)) below =
      inl (b, j, at, inl here, le, least)
    where
      least : (c i : ℕ) → Has (branch l a k r) c i → key ≤ i → j ≤ i
      least c i (inl x) large = most c i x large
      least c i (inr (inl (same, level))) large = let down = below b j here in omega arith
      least c i (inr (inr x)) large =
          let up = above c i x in let down = below b j here in omega arith
  AtLeast-left l r a k acc p above high (inr (at, none_there)) below =
      inl (a, k, at, inr (inl (refl, refl)), high, least)
    where
      least : (c i : ℕ) → Has (branch l a k r) c i → key ≤ i → k ≤ i
      least c i (inl x) large = let out = none_there c i x in omega arith
      least c i (inr (inl (same, level))) large = omega arith
      least c i (inr (inr x)) large = let up = above c i x in omega arith

  AtLeast-here :
      (l r : Shape) (a k : ℕ) (acc : Option ℕ) → key ≡ k → AtLeast (branch l a k r) key acc (some a)
  AtLeast-here l r a k acc level =
      inl (a, k, refl, inr (inl (refl, refl)), omega arith, λ c i x large. omega arith)

  upper_branch :
      (fuel a k : ℕ) (l r : Shape) (n : Node) (p acc : Option ℕ)
      → p ≡ some a
      → t.heap a ≡ some n
      → n.key ≡ k
      → ((b j : ℕ) → Has r b j → k < j)
      → ((b j : ℕ) → Has l b j → j < k)
      → Returns (upper_loop fuel key n.right acc t) (AtLeast r key acc)
      → Returns (upper_loop fuel key n.left (some a) t) (AtLeast l key (some a))
      → Returns (upper_loop (suc fuel) key p acc t) (AtLeast (branch l a k r) key acc)
  upper_branch fuel a k l r n p acc at there same above below (vr, run_r, found_r)
        (vl, run_l, found_l) =
      let step = upper_step fuel a n p acc at there in
      elim (Bool-cases (n.key == key)) [
        | inl hit ↦ (
          some a,
          step ∙ ap (λ b. upper_round fuel a n acc b (ltb n.key key)) hit,
          AtLeast-here l r a k acc (sym ((==_iff n.key key).0 hit) ∙ same),
        )
        | inr miss ↦
            let missed = step ∙ ap (λ b. upper_round fuel a n acc b (ltb n.key key)) miss in
            elim (Bool-cases (ltb n.key key)) [
              | inl low ↦ (
                vr,
                missed ∙ ap (upper_round fuel a n acc false) low ∙ run_r,
                AtLeast-right l r a k acc vr below (let h = ltb→lt n.key key low in omega arith)
                    found_r,
              )
              | inr high ↦ (
                vl,
                missed ∙ ap (upper_round fuel a n acc false) high ∙ run_l,
                AtLeast-left l r a k acc vl above (let h = ltb→le n.key key high in omega arith)
                    found_l below,
              )
            ]
      ]

  upper_loop-AtLeast :
      (fuel : ℕ) (s : Shape) (p acc : Option ℕ)
      → Holds t p s
      → IsOrdered s
      → height s < fuel
      → Returns (upper_loop fuel key p acc t) (AtLeast s key acc)
  unfolding upper_loop
  upper_loop-AtLeast zero s p acc h o high = absurd (omega arith)
  upper_loop-AtLeast (suc fuel) leaf p acc h o high =
      (acc, ap (λ q. upper_loop (suc fuel) key q acc t) h, inr (refl, λ b j x. absurd x))
  upper_loop-AtLeast (suc fuel) (branch l a k r) p acc (n, at, there, same, hl, hr)
        (below, above, ol, or) high =
      upper_branch fuel a k l r n p acc at there same above below
        (upper_loop-AtLeast fuel r n.right acc hr or (height-right l r a k fuel high))
        (upper_loop-AtLeast fuel l n.left (some a) hl ol (height-left l r a k fuel high))

  -- On a search tree, with more fuel than its height, `bf_get_upper_bound` ends in the node with
  -- the least key that is at least the given one, or in NULL where every key is less.
  pub bf_get_upper_bound-AtLeast :
      (s : Shape) (p : Option ℕ)
      → Holds t p s
      → IsOrdered s
      → (fuel : ℕ) → height s < fuel
      → Returns (bf_get_upper_bound fuel key p t) (AtLeast s key none)
  unfolding bf_get_upper_bound
  bf_get_upper_bound-AtLeast s p h o fuel high = upper_loop-AtLeast fuel s p none h o high
