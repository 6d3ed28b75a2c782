-- ===== src/Id/Listing.antt =====
-- `bf_id_allocator_get_first` and `bf_id_allocator_get_next` of src/id/id.c: the ids in use, listed.
use mathlib.Core.Path.{subst}
use target_utils.Base.{
  ℕ, zero, suc, ◌+◌, ◌≤◌, ◌<◌, ◌≡◌, refl, sym, ap, ◌∙◌, Bool, true, false, Option, none, some,
  arith, word32, u32, ltb, Bool-cases, ltb→lt, ltb→le, inl, inr,
}
use target_utils.Judy.One.{Judy1, IsFirst}
use target_utils.Id.{
  Allocator, first_id, next_id, next_after, bf_id_allocator_get_first, bf_id_allocator_get_next,
}
use target_utils.Id.Allocate.{members, IsValid}
use target_utils.Id.Room.{IsBounded, false_of_ne}
use target_utils.Id.InUse.{IsId, holds, Lists, is_set, is_set-holds}

abbrev from_index : Bool → ℕ → ℕ
from_index true i = i
from_index false i = suc i

set_below : (p : ℕ → Bool) (size k : ℕ) → IsBounded p size → p k ≡ true → k < size
set_below p size k b on = elim (Bool-cases (ltb k size)) [
  | inl near ↦ ltb→lt k size near
  | inr far ↦ let off = b k (ltb→le k size far) in cc
]

-- A search from an index, as a listing of ids.
listed :
    (p : ℕ → Bool) (zero_based : Bool) (i : ℕ) (o : Option ℕ)
    → IsBounded p 0x8000_0000
    → IsFirst p true i o
    → Lists (holds p zero_based) (from_index zero_based i) (next_id zero_based o)
listed p true i none b h = inl (refl, λ id q r. false_of_ne (h id q (omega arith)))
listed p true i (some k) b h =
    let e : u32 k ≡ k = omega (arith, set_below p _ k b h.2) in
    rw e (inr (h.0, h.2, λ id q r. false_of_ne (h.3 id q r)))
listed p false i none b h = inl (refl, clear)
  where
    clear : (id : ℕ) → suc i ≤ id → id < word32 → holds p false id ≡ false
    clear zero q r = refl
    clear (suc id) q r = false_of_ne (h id (omega arith) (omega arith))
listed p false i (some k) b h =
    let e : u32 (k + 1) ≡ suc k = omega (arith, set_below p _ k b h.2) in
    rw e (inr (omega (arith, h.0), h.2, clear))
  where
    clear : (id : ℕ) → suc i ≤ id → id < suc k → holds p false id ≡ false
    clear zero q r = refl
    clear (suc id) q r = false_of_ne (h.3 id (omega arith) (omega arith))

Lists-same :
    {f g : ℕ → Bool} {from r : ℕ}
    → ((id : ℕ) → id < word32 → g id ≡ f id)
    → r < word32
    → Lists f from r
    → Lists g from r
Lists-same e small (inl (last, none_left)) = inl (last, λ id p q. e id q ∙ none_left id p q)
Lists-same e small (inr (above, on, skipped)) =
    inr (above, e _ small ∙ on, λ id p q. e id (omega arith) ∙ skipped id p q)

next_id-lt : (zero_based : Bool) (o : Option ℕ) → next_id zero_based o < word32
next_id-lt true none = omega arith
next_id-lt true (some k) = omega arith
next_id-lt false none = omega arith
next_id-lt false (some k) = omega arith

module _ (judy : Judy1) where
  open judy use {Arr, test, j1f, j1n, j1f-IsFirst, j1n-IsFirst}

  module _ (al : Allocator judy) (valid : IsValid judy al) where
    wide : IsBounded (members judy al) 0x8000_0000
    wide = λ k p. valid.bounded k (omega (arith, valid.small))

    -- On a valid allocator that is not zero-based `bf_id_allocator_get_first` returns the least id
    -- in use, or -1 if no id is.
    pub bf_id_allocator_get_first-Lists :
        al.zero_based ≡ false → Lists (is_set judy al) 1 (bf_id_allocator_get_first judy (some al))
    unfolding bf_id_allocator_get_first
    bf_id_allocator_get_first-Lists e =
        subst (λ r. Lists (is_set judy al) 1 r)
          (sym (ap (λ z. first_id z (j1f al.array 0)) e ∙ same))
          (Lists-same (λ id h. is_set-holds judy al id h ∙ ap (λ z. holds (members judy al) z id) e)
            (next_id-lt false (j1f al.array 0))
            (listed (members judy al) false 0 (j1f al.array 0) wide (j1f-IsFirst al.array 0)))
      where
        same : first_id false (j1f al.array 0) ≡ next_id false (j1f al.array 0)
        same = by_answer (j1f al.array 0)
          where
            by_answer : (o : Option ℕ) → first_id false o ≡ next_id false o
            by_answer none = refl
            by_answer (some k) = refl

    -- On a valid allocator `bf_id_allocator_get_next` returns the least id in use above an id, or
    -- -1 if there is none.
    pub bf_id_allocator_get_next-Lists :
        (id : ℕ)
        → IsId al.zero_based id
        → Lists (is_set judy al) (suc id) (bf_id_allocator_get_next judy (some al) id)
    unfolding bf_id_allocator_get_next
    bf_id_allocator_get_next-Lists id h =
        Lists-same (λ id h. is_set-holds judy al id h) (next_after-lt al.zero_based id)
          (by_base al.zero_based id h)
      where
        next_after-lt : (zero_based : Bool) (id : ℕ) → next_after judy al zero_based id < word32
        next_after-lt true id = next_id-lt true _
        next_after-lt false zero = omega arith
        next_after-lt false (suc index) = next_id-lt false _

        by_base :
            (zero_based : Bool) (id : ℕ)
            → IsId zero_based id
            → Lists (holds (members judy al) zero_based) (suc id) (next_after judy al zero_based id)
        by_base true id h = listed (members judy al) true (suc id) _ wide (j1n-IsFirst al.array id)
        by_base false zero h = absurd (omega arith)
        by_base false (suc index) h =
            listed (members judy al) false (suc index) _ wide (j1n-IsFirst al.array index)

    -- On a valid zero-based allocator `bf_id_allocator_get_first` returns 0 as soon as any id is in
    -- use, whichever it is: the id found is not copied to the result.
    pub bf_id_allocator_get_first-zero_based :
        (id : ℕ)
        → al.zero_based ≡ true
        → id < word32
        → is_set judy al id ≡ true
        → bf_id_allocator_get_first judy (some al) ≡ 0
    unfolding bf_id_allocator_get_first
    bf_id_allocator_get_first-zero_based id e h on =
        let on' : test al.array id ≡ true =
          ap (λ z. holds (members judy al) z id) (sym e) ∙ sym (is_set-holds judy al id h) ∙ on in
        ap (λ z. first_id z (j1f al.array 0)) e
        ∙ by_answer (j1f al.array 0) (j1f-IsFirst al.array 0) on'
      where
        by_answer :
            (o : Option ℕ)
            → IsFirst (members judy al) true 0 o
            → test al.array id ≡ true
            → first_id true o ≡ 0
        by_answer none f p = absurd (f id (omega arith) (omega arith) p)
        by_answer (some k) f p = refl
