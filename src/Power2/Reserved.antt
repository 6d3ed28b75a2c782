-- ===== src/Power2/Reserved.antt =====
-- The invariant of src/power2_allocator/power2_allocator.c after a block has come into the list in
-- use, inside a gap.
use target_utils.Base.{
  ℕ, ◌+◌, ◌≤◌, ◌<◌, ◌≡◌, ◌≢◌, refl, sym, ap, ◌∙◌, arith, Option, some, ◌&&◌, ◌==◌, ==_iff, ==_refl,
  if◌then◌else◌, ltb, leb, Bool-cases, ltb→lt, ltb→le, ◌⊎◌, inl, inr,
}
use target_utils.Power2.Pieces.{some_ne_none}
use target_utils.Power2.Valid.{IsApart, IsStart, IsEnd, IsGap, left_of, gap_unique}

-- The blocks and one more at `i`.
abbrev pub add_block : (ℕ → Option ℕ) → ℕ → ℕ → ℕ → Option ℕ
add_block used i size k = if i == k then some size else used k

module _ (used more : ℕ → Option ℕ) (total s i size e : ℕ) (is_apart : IsApart used total)
    (around : IsGap used total s e) (before : s ≤ i) (pos : 0 < size) (behind : i + size ≤ e)
    (below : e ≤ total) (added : (k : ℕ) → more k ≡ add_block used i size k) where
  here : more i ≡ some size
  here = added i ∙ ap (λ c. if c then some size else used i) (==_refl i)

  away : (k : ℕ) → i ≢ k → more k ≡ used k
  away k other = elim (Bool-cases (i == k)) [
    | inl same ↦ absurd (other ((==_iff i k).0 same))
    | inr apart ↦ added k ∙ ap (λ c. if c then some size else used k) apart
  ]

  -- A block is the new one, or an old one in front of the gap or behind it.
  pub block_cases :
      (k v : ℕ)
      → more k ≡ some v
      → ((k ≡ i) × (v ≡ size)) ⊎ ((used k ≡ some v) × ((k + v ≤ s) ⊎ (e ≤ k)))
  block_cases k v h = elim (Bool-cases (i == k)) [
    | inl same ↦
        let level : i ≡ k = (==_iff i k).0 same in
        let new : some size ≡ some v = sym here ∙ ap more level ∙ h in inl (sym level, cc)
    | inr apart ↦
        let old : used k ≡ some v =
          sym (added k ∙ ap (λ c. if c then some size else used k) apart) ∙ h in
        inr (
          old,
          elim (Bool-cases (ltb k s)) [
            | inl early ↦
                inl (left_of used total is_apart k v s old (ltb→lt k s early) around.starts)
            | inr late ↦ elim (Bool-cases (ltb k e)) [
              | inl within ↦
                  absurd
                    (some_ne_none (sym old ∙ around.unused k (ltb→le k s late) (ltb→lt k e within)))
              | inr beyond ↦ inr (ltb→le k e beyond)
            ]
          ],
        )
  ]

  pub more-IsApart : IsApart more total
  more-IsApart = record {
    within = λ k v h. elim (block_cases k v h) [
      | inl new ↦ omega (arith, new)
      | inr old ↦ is_apart.within k v old.0
    ];
    apart = λ k v j w h h' p. elim (block_cases k v h) [
      | inl new ↦ elim (block_cases j w h') [
        | inl new' ↦ absurd (omega (arith, new, new'))
        | inr old' ↦ ground (arith, new, old'.1)
      ]
      | inr old ↦ elim (block_cases j w h') [
        | inl new' ↦ ground (arith, new', old.1)
        | inr old' ↦ is_apart.apart k v j w old.0 old'.0 p
      ]
    ];
  }

  -- Old starts and ends of gaps are still such.
  kept-IsStart : (s' : ℕ) → IsStart used s' → IsStart more s'
  kept-IsStart s' (inl zero_start) = inl zero_start
  kept-IsStart s' (inr (b, v, there, ends)) = elim (Bool-cases (i == b)) [
    | inl same ↦
        let level = (==_iff i b).0 same in
        absurd
          (some_ne_none (sym there ∙ around.unused b (omega (arith, level)) (omega (arith, level))))
    | inr apart ↦
        inr (b, v, added b ∙ ap (λ c. if c then some size else used b) apart ∙ there, ends)
  ]

  kept-IsEnd : (e' : ℕ) → IsEnd used total e' → IsEnd more total e'
  kept-IsEnd e' (inl border) = inl border
  kept-IsEnd e' (inr (v, there)) = elim (Bool-cases (i == e')) [
    | inl same ↦
        let level = (==_iff i e').0 same in
        absurd (
          some_ne_none (sym there ∙ around.unused e' (omega (arith, level)) (omega (arith, level))))
    | inr apart ↦ inr (v, added e' ∙ ap (λ c. if c then some size else used e') apart ∙ there)
  ]

  left-IsGap : IsGap more total s i
  left-IsGap = record {
    starts = kept-IsStart s around.starts;
    ends = inr (size, here);
    ordered = before;
    unused = λ k p q. away k (λ same. omega arith) ∙ around.unused k p (omega arith);
  }

  right-IsGap : IsGap more total (i + size) e
  right-IsGap = record {
    starts = inr (i, size, here, refl);
    ends = kept-IsEnd e around.ends;
    ordered = behind;
    unused = λ k p q. away k (λ same. omega arith) ∙ around.unused k (omega arith) q;
  }

  old-IsStart : (s' : ℕ) → s' ≢ i + size → IsStart more s' → IsStart used s'
  old-IsStart s' other (inl zero_start) = inl zero_start
  old-IsStart s' other (inr (b, v, there, ends)) = elim (block_cases b v there) [
    | inl new ↦ absurd (other (omega (arith, new)))
    | inr old ↦ inr (b, v, old.0, ends)
  ]

  old-IsEnd : (e' : ℕ) → e' ≢ i → IsEnd more total e' → IsEnd used total e'
  old-IsEnd e' other (inl border) = inl border
  old-IsEnd e' other (inr (v, there)) = elim (block_cases e' v there) [
    | inl new ↦ absurd (other (new.0))
    | inr old ↦ inr (v, old.0)
  ]

  -- No gap begins right behind the new block and goes on behind the old gap.
  start_ne :
      (s' e' k : ℕ) → IsGap more total s' e' → k < e' → (k < s) ⊎ (e ≤ k) → s' ≤ k → s' ≢ i + size
  start_ne s' e' k g q (inl early) p same = omega arith
  start_ne s' e' k g q (inr late) p same = elim (kept-IsEnd e around.ends) [
    | inl border ↦ elim g.ends [
      | inl border' ↦ omega arith
      | inr (v, there) ↦ let a = more-IsApart.within e' v there in omega (arith, a)
    ]
    | inr (v, there) ↦ some_ne_none (sym there ∙ g.unused e (omega arith) (omega arith))
  ]

  -- No gap ends at the new block and goes on in front of the old gap.
  end_ne : (s' e' k : ℕ) → IsGap more total s' e' → s' ≤ k → k < e' → (k < s) ⊎ (e ≤ k) → e' ≢ i
  end_ne s' e' k g p q (inr late) same = omega arith
  end_ne s' e' k g p q (inl early) same = elim (kept-IsStart s around.starts) [
    | inl zero_start ↦ omega arith
    | inr (b, v, there, ends) ↦
        let sized = (more-IsApart.within b v there).0 in
        elim (Bool-cases (ltb b s')) [
          | inl outside ↦
              let a = left_of more total more-IsApart b v s' there (ltb→lt b s' outside) g.starts in
              omega arith
          | inr inside ↦ some_ne_none (sym there ∙ g.unused b (ltb→le b s' inside) (omega arith))
        ]
  ]

  not_within : (s' e' k : ℕ) → IsGap more total s' e' → s' ≤ k → k < e' → i ≤ k → k < i + size → ⊥
  not_within s' e' k g p q lo hi = elim (Bool-cases (ltb i s')) [
    | inl outside ↦
        let a = left_of more total more-IsApart i size s' here (ltb→lt i s' outside) g.starts in
        omega arith
    | inr inside ↦ some_ne_none (sym here ∙ g.unused i (ltb→le i s' inside) (omega arith))
  ]

  -- A gap is in front of the new block, behind it, or was a gap and lies elsewhere.
  pub more-IsGap :
      (s' e' k : ℕ)
      → IsGap more total s' e'
      → s' ≤ k
      → k < e'
      → ((s' ≡ s) × (e' ≡ i))
        ⊎ (((s' ≡ i + size) × (e' ≡ e)) ⊎ (IsGap used total s' e' × ((k < s) ⊎ (e ≤ k))))
  more-IsGap s' e' k g p q = elim (Bool-cases (leb s k && ltb k e)) [
    | inl within ↦ elim (Bool-cases (ltb k i)) [
      | inl first ↦ inl (
          gap_unique more total more-IsApart s i s' e' k left-IsGap g (ground (arith, within))
            (ltb→lt k i first) p q)
      | inr later ↦ elim (Bool-cases (ltb k (i + size))) [
        | inl middle ↦
            absurd (not_within s' e' k g p q (ltb→le k i later) (ltb→lt k (i + size) middle))
        | inr last ↦ inr (
            inl (
              gap_unique more total more-IsApart (i + size) e s' e' k right-IsGap g
                (ltb→le k (i + size) last) (ground (arith, within)) p q))
      ]
    ]
    | inr outside ↦
        let out : (k < s) ⊎ (e ≤ k) = ground (arith, outside) in
        inr (
          inr (
            record {
              starts = old-IsStart s' (start_ne s' e' k g q out p) g.starts;
              ends = old-IsEnd e' (end_ne s' e' k g p q out) g.ends;
              ordered = g.ordered;
              unused = λ j p' q'. elim (Bool-cases (i == j)) [
                | inl same ↦
                    absurd
                      (some_ne_none (sym here ∙ ap more ((==_iff i j).0 same) ∙ g.unused j p' q'))
                | inr apart ↦
                    sym (added j ∙ ap (λ c. if c then some size else used j) apart)
                    ∙ g.unused j p' q'
              ];
            },
            out,
          ))
  ]
