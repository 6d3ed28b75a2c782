-- ===== src/Power2/Freed.antt =====
-- The invariant of src/power2_allocator/power2_allocator.c after a block has left the list in use
-- and the chunks of the range around it have been put in.
use target_utils.Base.{
  ℕ, ◌+◌, ◌≤◌, ◌<◌, ◌≡◌, ◌≢◌, sym, ap, ◌∙◌, arith, false, Option, none, some, ◌&&◌, ◌==◌, ==_iff,
  if◌then◌else◌, ltb, leb, Bool-cases, Option-cases, ltb→lt, ltb→le, ◌⊎◌, inl, inr,
}
use target_utils.Power2.Pieces.{some_ne_none}
use target_utils.Power2.Valid.{IsApart, IsGap, left_of, gap_unique}

-- The blocks but the one at `i`.
abbrev pub drop_block : (ℕ → Option ℕ) → ℕ → ℕ → Option ℕ
drop_block used i k = if i == k then none else used k

module _ (used rest : ℕ → Option ℕ) (total s i size e : ℕ) (is_apart : IsApart used total)
    (there : used i ≡ some size) (left : IsGap used total s i)
    (right : IsGap used total (i + size) e) (dropped : (k : ℕ) → rest k ≡ drop_block used i k) where
  pub old_block : (k v : ℕ) → rest k ≡ some v → (used k ≡ some v) × (i ≢ k)
  old_block k v h = elim (Bool-cases (i == k)) [
    | inl same ↦
        absurd (some_ne_none (sym h ∙ dropped k ∙ ap (λ c. if c then none else used k) same))
    | inr other ↦ (
      sym (ap (λ c. if c then none else used k) other) ∙ sym (dropped k) ∙ h,
      λ q. ground (arith, other, q),
    )
  ]

  pub kept_none : (k : ℕ) → used k ≡ none → rest k ≡ none
  kept_none k h = elim (Bool-cases (i == k)) [
    | inl same ↦ dropped k ∙ ap (λ c. if c then none else used k) same
    | inr other ↦ dropped k ∙ ap (λ c. if c then none else used k) other ∙ h
  ]

  old_none : (k : ℕ) → i ≢ k → rest k ≡ none → used k ≡ none
  old_none k other h = elim (Bool-cases (i == k)) [
    | inl same ↦ absurd (other ((==_iff i k).0 same))
    | inr apart ↦ sym (ap (λ c. if c then none else used k) apart) ∙ sym (dropped k) ∙ h
  ]

  pub rest-IsApart : IsApart rest total
  rest-IsApart = record {
    within = λ k v h. is_apart.within k v (old_block k v h).0;
    apart = λ k v j w h h'. is_apart.apart k v j w (old_block k v h).0 (old_block j w h').0;
  }

  pub IsGap-merged : IsGap rest total s e
  IsGap-merged = record {
    starts = elim left.starts [
      | inl zero_start ↦ inl zero_start
      | inr (p, v, here, ends) ↦
          let pos = (is_apart.within p v here).0 in
          let before = left.ordered in
          let other : (i == p) ≡ false = ground arith in
          inr (p, v, dropped p ∙ ap (λ c. if c then none else used p) other ∙ here, ends)
    ];
    ends = elim right.ends [
      | inl border ↦ inl border
      | inr (v, here) ↦
          let pos = (is_apart.within i size there).0 in
          let before = right.ordered in
          let other : (i == e) ≡ false = ground arith in
          inr (v, dropped e ∙ ap (λ c. if c then none else used e) other ∙ here)
    ];
    ordered = let a = left.ordered in let b = right.ordered in omega arith;
    unused = λ k p q. elim (Bool-cases (ltb k i)) [
      | inl early ↦ kept_none k (left.unused k p (ltb→lt k i early))
      | inr late ↦ elim (Bool-cases (i == k)) [
        | inl same ↦ dropped k ∙ ap (λ c. if c then none else used k) same
        | inr other ↦ elim (Bool-cases (ltb k (i + size))) [
          | inr far ↦ kept_none k (right.unused k (ltb→le k (i + size) far) q)
          | inl near ↦ kept_none k (inside k (ground arith) (ltb→lt k (i + size) near))
        ]
      ]
    ];
  }
    where
      inside : (k : ℕ) → i < k → k < i + size → used k ≡ none
      inside k p q = elim (Option-cases (used k)) [
        | inl gone ↦ gone
        | inr (v, here) ↦ let a = is_apart.apart i size k v there here p in absurd (omega arith)
      ]

  -- A gap of the rest is the merged one, or was a gap and lies elsewhere.
  pub rest-IsGap :
      (s' e' k : ℕ)
      → IsGap rest total s' e'
      → s' ≤ k
      → k < e'
      → ((s' ≡ s) × (e' ≡ e)) ⊎ (IsGap used total s' e' × ((k < s) ⊎ (e ≤ k)))
  rest-IsGap s' e' k g p q = elim (Bool-cases (leb s' i && ltb i e')) [
    | inl around ↦
        let a = left.ordered in
        let b = right.ordered in
        let pos = (is_apart.within i size there).0 in
        inl (
          gap_unique rest total rest-IsApart s e s' e' i IsGap-merged g a (omega arith)
            (ground (arith, around)) (ground (arith, around)))
    | inr away ↦ elim (Bool-cases (leb s k && ltb k e)) [
      | inl within ↦ inl (
          gap_unique rest total rest-IsApart s e s' e' k IsGap-merged g (ground (arith, within))
            (ground (arith, within)) p q)
      | inr outside ↦ inr (
        record {
          starts = elim g.starts [
            | inl zero_start ↦ inl zero_start
            | inr (b, v, here, ends) ↦ inr (b, v, (old_block b v here).0, ends)
          ];
          ends = elim g.ends [
            | inl border ↦ inl border
            | inr (v, here) ↦ inr (v, (old_block e' v here).0)
          ];
          ordered = g.ordered;
          unused = λ j p' q'. old_none j (λ same. ground (arith, away, p', q')) (g.unused j p' q');
        },
        ground (arith, outside),
      )
    ]
  ]

  -- A block of the rest lies outside the merged gap.
  pub rest-outside : (j v k : ℕ) → rest j ≡ some v → j ≤ k → k < j + v → (k < s) ⊎ (e ≤ k)
  rest-outside j v k here p q = elim (Bool-cases (ltb j s)) [
    | inl early ↦
        let a =
          left_of used total is_apart j v s (old_block j v here).0 (ltb→lt j s early) left.starts in
        inl (omega arith)
    | inr late ↦ elim (Bool-cases (ltb j e)) [
      | inl within ↦
          absurd
            (some_ne_none (sym here ∙ IsGap-merged.unused j (ltb→le j s late) (ltb→lt j e within)))
      | inr beyond ↦ inr (let a = ltb→le j e beyond in omega arith)
    ]
  ]
