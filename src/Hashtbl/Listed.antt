-- ===== src/Hashtbl/Listed.antt =====
-- The hash table of tommyds as a list of elements with their hashes, so that its interface can hold.
use target_utils.Base.{
  ℕ, ◌≡◌, refl, sym, ap, ◌∙◌, Bool, true, false, ◌&&◌, ◌||◌, Option, none, some, List, [], ◌∷◌,
  ◌==◌, ==_iff, ==_refl, if◌then◌else◌, Bool-cases, inl, inr,
}
use target_utils.Hashtbl.{IsAnswer, without, Tommy}

abbrev Entries : Type 0
Entries = List (ℕ × ℕ)

abbrev hash_in : Entries → ℕ → Option ℕ
hash_in [] b = none
hash_in ((a, hash) ∷ t) b = if a == b then some hash else hash_in t b

-- An address that was passed stands for the entry in front.
abbrev hide : ℕ → (ℕ → Bool) → ℕ → Bool
hide a equal b = if a == b then false else equal b

abbrev find : Entries → (ℕ → Bool) → ℕ → Option ℕ
find [] equal hash = none
find ((a, h) ∷ t) equal hash =
    let rest = find t (hide a equal) hash in if h == hash && equal a then some a else rest

abbrev drop_all : Entries → ℕ → Entries
drop_all [] b = []
drop_all ((a, h) ∷ t) b = let rest = drop_all t b in if a == b then rest else (a, h) ∷ rest

abbrev drop_found : Entries → Option ℕ → Entries
drop_found t none = t
drop_found t (some a) = drop_all t a

-- Each address once.
abbrev listing : (ℕ → Bool) → Entries → List ℕ
listing seen [] = []
listing seen ((a, h) ∷ t) =
    let rest = listing (λ b. a == b || seen b) t in if seen a then rest else a ∷ rest

both_true : (b c : Bool) → (b && c) ≡ true → (b ≡ true) × (c ≡ true)
both_true true true e = (refl, refl)
both_true true false e = cc
both_true false c e = cc

-- A later entry counts where its address is another one.
module _ (a h hash : ℕ) (t : Entries) (equal : ℕ → Bool) where
  none_later :
      (h == hash && equal a) ≡ false
      → IsAnswer (hash_in t) (hide a equal) hash none
      → IsAnswer (hash_in ((a, h) ∷ t)) equal hash none
  none_later miss answer b e = by_test (a == b) (==_iff a b).0 e (answer b)
    where
      not_equal : h ≡ hash → equal a ≡ false
      not_equal same = sym (ap (λ c. c && equal a) ((==_iff h hash).1 same)) ∙ miss

      by_test :
          (c : Bool)
          → (c ≡ true → a ≡ b)
          → (if c then some h else hash_in t b) ≡ some hash
          → (hash_in t b ≡ some hash → (if c then false else equal b) ≡ false)
          → equal b ≡ false
      by_test true here e later =
          let same : h ≡ hash = cc in ap equal (sym (here refl)) ∙ not_equal same
      by_test false here e later = later e

  some_later :
      (c : ℕ)
      → IsAnswer (hash_in t) (hide a equal) hash (some c)
      → IsAnswer (hash_in ((a, h) ∷ t)) equal hash (some c)
  some_later c (held, shown) = by_test (a == c) held shown
    where
      by_test :
          (b : Bool)
          → hash_in t c ≡ some hash
          → (if b then false else equal c) ≡ true
          → ((if b then some h else hash_in t c) ≡ some hash) × (equal c ≡ true)
      by_test true held shown = absurd (let e = shown in cc)
      by_test false held shown = (held, shown)

  first_hit : (h == hash && equal a) ≡ true → IsAnswer (hash_in ((a, h) ∷ t)) equal hash (some a)
  first_hit hit =
      let (same, equals) = both_true (h == hash) (equal a) hit in
      (
        ap (λ b. if b then some h else hash_in t a) (==_refl a) ∙ ap some ((==_iff h hash).0 same),
        equals,
      )

  later :
      (o : Option ℕ)
      → (h == hash && equal a) ≡ false
      → IsAnswer (hash_in t) (hide a equal) hash o
      → IsAnswer (hash_in ((a, h) ∷ t)) equal hash o
  later none miss answer = none_later miss answer
  later (some c) miss answer = some_later c answer

  by_head :
      (c : Bool)
      → (h == hash && equal a) ≡ c
      → (o : Option ℕ) → IsAnswer (hash_in t) (hide a equal) hash o
      → IsAnswer (hash_in ((a, h) ∷ t)) equal hash (if c then some a else o)
  by_head true hit o answer = first_hit hit
  by_head false miss o answer = later o miss answer

pub find-IsAnswer :
    (t : Entries) (equal : ℕ → Bool) (hash : ℕ)
    → IsAnswer (hash_in t) equal hash (find t equal hash)
find-IsAnswer [] equal hash = λ a e. absurd cc
find-IsAnswer ((a, h) ∷ t) equal hash =
    by_head a h hash t equal (h == hash && equal a) refl (find t (hide a equal) hash)
      (find-IsAnswer t (hide a equal) hash)

hash_in-drop_all :
    (t : Entries) (a b : ℕ) → hash_in (drop_all t a) b ≡ (if a == b then none else hash_in t b)
hash_in-drop_all [] a b = by_test (a == b)
  where
    by_test : (c : Bool) → ◌≡◌ {A = Option ℕ} none (if c then none else none)
    by_test true = refl
    by_test false = refl
hash_in-drop_all ((c, h) ∷ t) a b = elim (Bool-cases (c == a)) [
  | inl gone ↦
      let same : c ≡ a = (==_iff c a).0 gone in
      ap (λ d. hash_in (if d then drop_all t a else (c, h) ∷ drop_all t a) b) gone
      ∙ hash_in-drop_all t a b
      ∙ passed (a == b) (c == b) (some h) (hash_in t b) (ap (λ n. n == b) (sym same))
  | inr kept ↦
      ap (λ d. hash_in (if d then drop_all t a else (c, h) ∷ drop_all t a) b) kept
      ∙ ap (λ o. if c == b then some h else o) (hash_in-drop_all t a b)
      ∙ swapped (a == b) (c == b) (some h) (hash_in t b)
          (λ same. ap (λ n. c == n) (sym ((==_iff a b).0 same)) ∙ kept)
]
  where
    passed :
        (d e : Bool) (o r : Option ℕ)
        → d ≡ e
        → (if d then none else r) ≡ (if d then none else if e then o else r)
    passed true e o r same = refl
    passed false e o r same = ap (λ e. if e then o else r) same

    swapped :
        (d e : Bool) (o r : Option ℕ)
        → (d ≡ true → e ≡ false)
        → (if e then o else if d then none else r) ≡ (if d then none else if e then o else r)
    swapped true true o r apart = absurd (let f = apart refl in cc)
    swapped true false o r apart = refl
    swapped false e o r apart = refl

pub hash_in-drop_found :
    (t : Entries) (o : Option ℕ) (b : ℕ) → hash_in (drop_found t o) b ≡ without o (hash_in t) b
hash_in-drop_found t none b = refl
hash_in-drop_found t (some a) b = hash_in-drop_all t a b

abbrev pub listed : Tommy
listed = record {
  Table = Entries;
  init = [];
  insert = λ t a hash. (a, hash) ∷ t;
  search = find;
  remove = λ t equal hash. (drop_found t (find t equal hash), find t equal hash);
  elements = listing (λ b. false);
  holds = hash_in;
  holds-init = λ a. refl;
  holds-insert = λ t a hash b fresh. refl;
  search-IsAnswer = find-IsAnswer;
  remove-IsAnswer = find-IsAnswer;
  holds-remove = λ t equal hash b. hash_in-drop_found t (find t equal hash) b;
}
