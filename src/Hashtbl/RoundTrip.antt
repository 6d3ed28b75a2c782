-- ===== src/Hashtbl/RoundTrip.antt =====
-- What src/hashtbl/hashtbl.c does with a datum that is inserted, found and taken out again.
use target_utils.Base.{
  ℕ, ◌≡◌, refl, sym, ap, ◌∙◌, Bool, true, false, Option, none, some, ◌==◌, ==_iff, ==_refl,
  if◌then◌else◌, Bool-cases, inl, inr,
}
use target_utils.Base.Run.{Run, ok, abort, ◌>>=◌}
use target_utils.Hashtbl.{
  IsAnswer, without, Tommy, HashtblStatus, bf_hashtbl_ok, Hashtable, compares, with_node,
  construct_hash, bf_hashtbl_get_cmp_data, bf_hashtbl_search, bf_hashtbl_insert,
  bf_hashtbl_get_remove,
}

module _ (tommy : Tommy) (xxh32 : ℕ → ℕ → ℕ → ℕ) where
  -- No datum of the table compares equal to the key under its hash.
  abbrev pub Lacks : Hashtable tommy → ℕ → Type 0
  Lacks htbl key =
      (b : ℕ)
      → tommy.holds htbl.phtbl b ≡ some (construct_hash tommy xxh32 htbl key)
      → compares tommy htbl key b ≡ false

  -- The address holds no node, and is not an element.
  abbrev pub IsFresh : Hashtable tommy → ℕ → Type 0
  IsFresh htbl a = (tommy.holds htbl.phtbl a ≡ none) × (htbl.nodes a ≡ none)

  -- The same elements and nodes.
  abbrev pub IsSame : Hashtable tommy → Hashtable tommy → Type 0
  IsSame htbl htbl' =
      ((b : ℕ) → tommy.holds htbl'.phtbl b ≡ tommy.holds htbl.phtbl b)
      × ((b : ℕ) → htbl'.nodes b ≡ htbl.nodes b)

  -- The table after the insertion: the datum is found, and taken out it leaves the table as it was.
  abbrev pub IsKept : Hashtable tommy → ℕ → ℕ → Option (Hashtable tommy) × HashtblStatus → Type 0
  IsKept htbl d key (after, status) =
      (status ≡ bf_hashtbl_ok)
      × (bf_hashtbl_search tommy xxh32 after (some key) ≡ ok (some d))
      × ((htbl' : Hashtable tommy) × (bf_hashtbl_get_remove tommy xxh32 after (some key)
            ≡ ok (some htbl', some d))
          × IsSame htbl htbl')

  module _ (htbl : Hashtable tommy) (d key a : ℕ) (lacks : Lacks htbl key) (fresh : IsFresh htbl a)
      (equal : htbl.cmp_fn key d ≡ 0) where
    abbrev hash : ℕ
    hash = construct_hash tommy xxh32 htbl key

    abbrev table : tommy.Table
    table = tommy.insert htbl.phtbl a hash

    abbrev after : Hashtable tommy
    after = record htbl { nodes = λ b. if a == b then some d else htbl.nodes b; phtbl = table }

    held : (b : ℕ) → tommy.holds table b ≡ (if a == b then some hash else tommy.holds htbl.phtbl b)
    held b = tommy.holds-insert htbl.phtbl a hash b fresh.0

    node_new : after.nodes a ≡ some d
    node_new = ap (λ b. if b then some d else htbl.nodes a) (==_refl a)

    equal_new : compares tommy after key a ≡ true
    equal_new =
        ap (λ o. elim o as (λ x. Bool) [ none ↦ false | some d ↦ htbl.cmp_fn key d == 0 ]) node_new
        ∙ (==_iff (htbl.cmp_fn key d) 0).1 equal

    equal_old : (b : ℕ) → (a == b) ≡ false → compares tommy after key b ≡ compares tommy htbl key b
    equal_old b other =
        ap
          (λ c. elim (if c then some d else htbl.nodes b) as (λ x. Bool) [
            | none ↦ false
            | some d ↦ htbl.cmp_fn key d == 0
          ])
          other

    -- The only answer is the new element.
    answer_lem :
        (o : Option ℕ) → IsAnswer (tommy.holds table) (compares tommy after key) hash o → o ≡ some a
    answer_lem none missed =
        let here =
          held a ∙ ap (λ b. if b then some hash else tommy.holds htbl.phtbl a) (==_refl a) in
        absurd (let e = sym equal_new ∙ missed a here in cc)
    answer_lem (some b) (there, equals) = elim (Bool-cases (a == b)) [
      | inl here ↦ ap some (sym ((==_iff a b).0 here))
      | inr other ↦
          let old : tommy.holds htbl.phtbl b ≡ some hash =
            sym (ap (λ c. if c then some hash else tommy.holds htbl.phtbl b) other)
            ∙ sym (held b)
            ∙ there in
          absurd (let e = sym equals ∙ equal_old b other ∙ lacks b old in cc)
    ]

    datum_run : bf_hashtbl_get_cmp_data tommy after.nodes a ≡ ok d
    datum_run = ap (λ o. elim o as (λ x. Run ℕ) [ none ↦ abort | some d ↦ ok d ]) node_new

    search_run : bf_hashtbl_search tommy xxh32 (some after) (some key) ≡ ok (some d)
    unfolding bf_hashtbl_search
    search_run =
        ap
          (λ o. elim o as (λ x. Run (Option ℕ)) [
            | none ↦ ok none
            | some b ↦ do x ← bf_hashtbl_get_cmp_data tommy after.nodes b; ok (some x)
          ])
          (answer_lem _ (tommy.search-IsAnswer table (compares tommy after key) hash))
        ∙ ap (λ r. do x ← r; ok (some x)) datum_run

    abbrev removed : tommy.Table × Option ℕ
    removed = tommy.remove table (compares tommy after key) hash

    found : removed.1 ≡ some a
    found = answer_lem _ (tommy.remove-IsAnswer table (compares tommy after key) hash)

    abbrev last : Hashtable tommy
    last = with_node tommy (record after { phtbl = removed.0 }) a none

    remove_run : bf_hashtbl_get_remove tommy xxh32 (some after) (some key) ≡ ok (some last, some d)
    unfolding bf_hashtbl_get_remove
    remove_run =
        let htbl' = record after { phtbl = removed.0 } in
        ap
          (λ o. elim o as (λ x. Run (Option (Hashtable tommy) × Option ℕ)) [
            | none ↦ ok (some htbl', none)
            | some b ↦ do
              x ← bf_hashtbl_get_cmp_data tommy after.nodes b
              ok (some (with_node tommy htbl' b none), some x)
          ])
          found
        ∙ ap (λ r. do x ← r; ok (some last, some x)) datum_run

    holds_same : (b : ℕ) → tommy.holds removed.0 b ≡ tommy.holds htbl.phtbl b
    holds_same b =
        tommy.holds-remove table (compares tommy after key) hash b
        ∙ ap (λ o. without o (tommy.holds table) b) found
        ∙ ap (λ o. if a == b then none else o) (held b)
        ∙ by_test (a == b) (==_iff a b).0
      where
        by_test :
            (c : Bool)
            → (c ≡ true → a ≡ b)
            → (if c then none else if c then some hash else tommy.holds htbl.phtbl b)
              ≡ tommy.holds htbl.phtbl b
        by_test true same = sym fresh.0 ∙ ap (tommy.holds htbl.phtbl) (same refl)
        by_test false same = refl

    nodes_same : (b : ℕ) → last.nodes b ≡ htbl.nodes b
    nodes_same b = by_test (a == b) (==_iff a b).0
      where
        by_test :
            (c : Bool)
            → (c ≡ true → a ≡ b)
            → (if c then none else if c then some d else htbl.nodes b) ≡ htbl.nodes b
        by_test true same = sym fresh.1 ∙ ap htbl.nodes (same refl)
        by_test false same = refl

    -- Where no datum of the table compares equal to the key under its hash, the datum does, and the
    -- new node's address is free, `bf_hashtbl_insert` succeeds, `bf_hashtbl_search` then finds the
    -- datum under the key, and `bf_hashtbl_get_remove` returns it and leaves the elements and nodes
    -- that were there before.
    pub bf_hashtbl_get_remove-bf_hashtbl_insert :
        IsKept htbl d key (bf_hashtbl_insert tommy xxh32 (some htbl) (some d) (some key) (some a))
    unfolding bf_hashtbl_insert
    bf_hashtbl_get_remove-bf_hashtbl_insert =
        (refl, search_run, (last, remove_run, (holds_same, nodes_same)))
