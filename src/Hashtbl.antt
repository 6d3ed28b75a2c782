-- ===== src/Hashtbl.antt =====
-- src/hashtbl/hashtbl.c and include/target-utils/hashtbl/bf_hashtbl.h: a table of nodes over the linear
-- hash table of tommyds, which `Tommy` stands for, and the hash XXH32. A pointer is `none` where it
-- is NULL; a key and a datum are words. What `bf_sys_calloc` returns is an argument; `bf_sys_malloc`
-- is taken to succeed, as the code takes it.
pub mod Listed
pub mod RoundTrip
mod Tests
use target_utils.Base.{
  ℕ, ◌%◌, ◌≡◌, Bool, true, false, not, ◌&&◌, ◌||◌, Option, none, some, List, [], ◌∷◌, ◌==◌,
  if◌then◌else◌,
}
use target_utils.Base.Run.{Run, ok, abort, ◌>>=◌}

-- The answer of a search: an element with the hash that compares equal, or no such element.
abbrev pub IsAnswer : (ℕ → Option ℕ) → (ℕ → Bool) → ℕ → Option ℕ → Type 0
IsAnswer holds equal hash none = (a : ℕ) → holds a ≡ some hash → equal a ≡ false
IsAnswer holds equal hash (some a) = (holds a ≡ some hash) × (equal a ≡ true)

-- What is left by a removal that gave an answer.
abbrev pub without : Option ℕ → (ℕ → Option ℕ) → ℕ → Option ℕ
without none holds b = holds b
without (some a) holds b = if a == b then none else holds b

-- `tommy_hashlin`: elements, here addresses of nodes, each under a hash. The comparison says whether
-- the function that the call is given returns 0.
pub record Tommy : Type 1 where
  pub Table : Type 0
  pub init : Table
  pub insert : Table → ℕ → ℕ → Table
  pub search : Table → (ℕ → Bool) → ℕ → Option ℕ
  pub remove : Table → (ℕ → Bool) → ℕ → Table × Option ℕ
  -- The elements in the order of `tommy_hashlin_foreach_arg`.
  pub elements : Table → List ℕ
  -- The hash of an element.
  pub holds : Table → ℕ → Option ℕ
  pub holds-init : (a : ℕ) → holds init a ≡ none
  pub holds-insert :
      (t : Table) (a hash b : ℕ)
      → holds t a ≡ none
      → holds (insert t a hash) b ≡ (if a == b then some hash else holds t b)
  pub search-IsAnswer :
      (t : Table) (equal : ℕ → Bool) (hash : ℕ)
      → IsAnswer (holds t) equal hash (search t equal hash)
  pub remove-IsAnswer :
      (t : Table) (equal : ℕ → Bool) (hash : ℕ)
      → IsAnswer (holds t) equal hash (remove t equal hash).1
  pub holds-remove :
      (t : Table) (equal : ℕ → Bool) (hash b : ℕ)
      → holds (remove t equal hash).0 b ≡ without (remove t equal hash).1 (holds t) b

pub data HashtblStatus : Type 0 where
  bf_hashtbl_ok bf_hashtbl_invalid_arg bf_hashtbl_err : HashtblStatus

module _ (tommy : Tommy) where
  open tommy use {Table, init, insert, search, remove, elements}

  -- `nodes` is the heap of `bf_hashtbl_node_t`, of which the field `data` counts here.
  pub record Hashtable : Type 0 where
    pub cmp_fn : ℕ → ℕ → ℕ
    pub has_free_fn : Bool
    pub key_sz : ℕ
    pub data_sz : ℕ
    pub seed : ℕ
    pub phtbl : Table
    pub nodes : ℕ → Option ℕ

  -- The heap before the table's first node is `nodes`; a table pointer that is NULL has no table.
  unfoldable pub bf_hashtbl_init :
      Bool
      → Option (ℕ → ℕ → ℕ)
      → Bool
      → ℕ
      → ℕ
      → ℕ
      → (ℕ → Option ℕ)
      → Option Hashtable × HashtblStatus
  bf_hashtbl_init false fn free_fn key_sz data_sz seed nodes = (none, bf_hashtbl_invalid_arg)
  bf_hashtbl_init true none free_fn key_sz data_sz seed nodes = (none, bf_hashtbl_invalid_arg)
  bf_hashtbl_init true (some fn) free_fn key_sz data_sz seed nodes =
      if key_sz == 0 || data_sz == 0 then (none, bf_hashtbl_invalid_arg) else (
        some (record {
          cmp_fn = fn;
          has_free_fn = free_fn;
          key_sz = key_sz;
          data_sz = data_sz;
          seed = seed;
          phtbl = init;
          nodes = nodes;
        }),
        bf_hashtbl_ok,
      )

  -- `bf_hashtbl_get_cmp_data`, the field `data` of a node.
  abbrev pub bf_hashtbl_get_cmp_data : (ℕ → Option ℕ) → ℕ → Run ℕ
  bf_hashtbl_get_cmp_data nodes a = elim (nodes a) [ none ↦ abort | some d ↦ ok d ]

  -- The comparison of a key with the datum of a node.
  abbrev pub compares : Hashtable → ℕ → ℕ → Bool
  compares htbl key a = elim (htbl.nodes a) [ none ↦ false | some d ↦ htbl.cmp_fn key d == 0 ]

  -- `free`, and a call of `bf_sys_calloc` that sets the field `data`.
  abbrev pub with_node : Hashtable → ℕ → Option ℕ → Hashtable
  with_node htbl a d = record htbl { nodes = λ b. if a == b then d else htbl.nodes b }

  module _ (xxh32 : ℕ → ℕ → ℕ → ℕ) where
    -- `uint8_t key_sz = htbl->key_sz`.
    abbrev pub construct_hash : Hashtable → ℕ → ℕ
    construct_hash htbl key = xxh32 key (htbl.key_sz % 256) htbl.seed

    unfoldable pub bf_hashtbl_search : Option Hashtable → Option ℕ → Run (Option ℕ)
    bf_hashtbl_search none key = ok none
    bf_hashtbl_search (some htbl) none = ok none
    bf_hashtbl_search (some htbl) (some key) =
        elim (search htbl.phtbl (compares htbl key) (construct_hash htbl key)) [
          | none ↦ ok none
          | some a ↦ do d ← bf_hashtbl_get_cmp_data htbl.nodes a; ok (some d)
        ]

    -- The last argument is what `bf_sys_calloc` returns.
    unfoldable pub bf_hashtbl_insert :
        Option Hashtable → Option ℕ → Option ℕ → Option ℕ → Option Hashtable × HashtblStatus
    bf_hashtbl_insert none datum key new = (none, bf_hashtbl_invalid_arg)
    bf_hashtbl_insert (some htbl) none key new = (some htbl, bf_hashtbl_invalid_arg)
    bf_hashtbl_insert (some htbl) (some datum) none new = (some htbl, bf_hashtbl_invalid_arg)
    bf_hashtbl_insert (some htbl) (some datum) (some key) none = (some htbl, bf_hashtbl_err)
    bf_hashtbl_insert (some htbl) (some datum) (some key) (some a) =
        let htbl' = with_node htbl a (some datum) in
        (
          some (record htbl' { phtbl = insert htbl.phtbl a (construct_hash htbl key) }),
          bf_hashtbl_ok,
        )

    unfoldable pub bf_hashtbl_get_remove :
        Option Hashtable → Option ℕ → Run (Option Hashtable × Option ℕ)
    bf_hashtbl_get_remove none key = ok (none, none)
    bf_hashtbl_get_remove (some htbl) none = ok (some htbl, none)
    bf_hashtbl_get_remove (some htbl) (some key) =
        let (table, found) = remove htbl.phtbl (compares htbl key) (construct_hash htbl key) in
        let htbl' = record htbl { phtbl = table } in
        elim found [
          | none ↦ ok (some htbl', none)
          | some a ↦ do
            d ← bf_hashtbl_get_cmp_data htbl.nodes a
            ok (some (with_node htbl' a none), some d)
        ]

  -- The nodes with which the function is called, in order.
  unfoldable pub bf_hashtbl_foreach_fn : Option Hashtable → Bool → List ℕ
  bf_hashtbl_foreach_fn none foreach_fn = []
  bf_hashtbl_foreach_fn (some htbl) false = []
  bf_hashtbl_foreach_fn (some htbl) true = elements htbl.phtbl

  -- `bf_htbl_foreach_free_fn` on each element: the data with which `free_fn` is called, in order.
  unfoldable pub free_each : List ℕ → Hashtable → Run (Hashtable × List ℕ)
  free_each [] htbl = ok (htbl, [])
  free_each (a ∷ rest) htbl = do
    d ← bf_hashtbl_get_cmp_data htbl.nodes a
    (htbl', freed) ← free_each rest (with_node htbl a none)
    ok (htbl', if htbl.has_free_fn then d ∷ freed else freed)

  -- The nodes that are left, where there was a table, and the data passed to `free_fn`. The table
  -- itself is freed.
  unfoldable pub bf_hashtbl_delete : Option Hashtable → Run (Option (ℕ → Option ℕ) × List ℕ)
  unfolding free_each
  bf_hashtbl_delete none = ok (none, [])
  bf_hashtbl_delete (some htbl) = do
    (htbl', freed) ← free_each (elements htbl.phtbl) htbl
    ok (some htbl'.nodes, freed)
