-- ===== src/Map/Contents.antt =====
-- What each operation of src/map/map.c returns and leaves, on every branch, in terms of the
-- contents of the array.
use target_utils.Base.{
  ℕ, ◌≤◌, ◌<◌, ◌≡◌, ◌≢◌, refl, sym, ◌∙◌, Option, none, some, arith, word64, ◌==◌, if◌then◌else◌,
  Bool-cases, ==_iff, ==_refl, inl, inr,
}
use target_utils.Judy.One.{Rc, jerr, rc_zero, rc_one}
use target_utils.Judy.Many.{
  JudyL, Pointer, pjerr, null, slot, slot_of, value_or, IsFirst, Inserted, Deleted,
}
use target_utils.Map.{
  Status, bf_map_ok, bf_map_err, bf_map_no_key, bf_map_key_exists, add_at, bf_map_add, rmv_status,
  bf_map_rmv, read_status, bf_map_get, entry_status, bf_map_get_first,
}

abbrev pub Contents : Type 0
Contents = ℕ → Option ℕ

abbrev pub Same : Contents → Contents → Type 0
Same f g = (k : ℕ) → g k ≡ f k

-- An entry whose data is NULL counts as absent for an addition, and only there.
abbrev pub Added : Contents → ℕ → ℕ → Contents → Status → Type 0
Added f key word g bf_map_ok =
    (value_or (f key) 0 ≡ 0) × ((k : ℕ) → g k ≡ (if key == k then some word else f k))
Added f key word g bf_map_key_exists = (value_or (f key) 0 ≢ 0) × Same f g
Added f key word g bf_map_err = Same f g
Added f key word g bf_map_no_key = ⊥

abbrev pub Removed : Contents → ℕ → Contents → Status → Type 0
Removed f key g bf_map_ok = (f key ≢ none) × ((k : ℕ) → g k ≡ (if key == k then none else f k))
Removed f key g bf_map_no_key = (f key ≡ none) × Same f g
Removed f key g bf_map_err = Same f g
Removed f key g bf_map_key_exists = ⊥

-- The entry of the least key from `from`, or no entry from there on.
abbrev pub Least : Contents → ℕ → Status × Option (ℕ × ℕ) → Type 0
Least f from (bf_map_ok, some (i, v)) =
    (from ≤ i) × (f i ≡ some v) × ((k : ℕ) → from ≤ k → k < i → f k ≡ none)
Least f from (bf_map_no_key, none) = (k : ℕ) → from ≤ k → k < word64 → f k ≡ none
Least f from _ = ⊥

value_nonzero : (o : Option ℕ) → value_or o 0 ≢ 0 → o ≡ some (value_or o 0)
value_nonzero none h = absurd (h refl)
value_nonzero (some v) h = refl

module _ (judy : JudyL) where
  open judy use {
    Arr, lookup, jli, jld, jlf, lookup-store, jli-Inserted, jld-Deleted, jlg_lem, jlf-IsFirst,
  }

  add_at-Added :
      (f : Contents) (a : Arr) (key word : ℕ) (p : Pointer)
      → Inserted f key (lookup a) p
      → Added f key word (lookup (add_at judy a word p).0) (add_at judy a word p).1
  add_at-Added f a key word pjerr h = h
  add_at-Added f a key word null h = absurd h
  add_at-Added f a key word (slot i v) (e, r, h) =
      let there : lookup a i ≡ some v = h i ∙ rw (e, ==_refl key) refl in
      elim (Bool-cases (v == 0)) [
        | inl z ↦ rw z (
          sym r ∙ (==_iff v 0).0 z,
          λ k. rw (lookup-store a i word k (rw there (λ q. cc))) (ground (arith, h k)),
        )
        | inr n ↦ rw n (λ q. ground (arith, r, q), λ k. ground (arith, h k, value_nonzero (f key)))
      ]

  -- `bf_map_add` stores under a key that is absent or holds NULL, refuses a key that holds other
  -- data, touches no other key on any branch, and changes nothing when memory runs out.
  pub bf_map_add-Added :
      (map : Arr) (key word : ℕ)
      → let r = bf_map_add judy map key word in Added (lookup map) key word (lookup r.0) r.1
  unfolding bf_map_add
  bf_map_add-Added map key word =
      add_at-Added (lookup map) _ key word (jli map key).1 (jli-Inserted map key)

  -- `bf_map_rmv` removes the entry of the key and no other, reports a key that is not there, and
  -- changes nothing when memory runs out.
  pub bf_map_rmv-Removed :
      (map : Arr) (key : ℕ)
      → let r = bf_map_rmv judy map key in Removed (lookup map) key (lookup r.0) r.1
  unfolding bf_map_rmv
  bf_map_rmv-Removed map key = by_rc (jld map key).1 (jld-Deleted map key)
    where
      by_rc :
          (rc : Rc)
          → Deleted (lookup map) key (lookup (jld map key).0) rc
          → Removed (lookup map) key (lookup (jld map key).0) (rmv_status judy rc)
      by_rc jerr h = h
      by_rc rc_zero h = h
      by_rc rc_one h = h

  -- `bf_map_get` reads the contents: the data of a key that is there, and no-key otherwise.
  pub bf_map_get_lem :
      (map : Arr) (key : ℕ)
      → bf_map_get judy map key ≡ read_status judy (slot_of key (lookup map key))
  unfolding bf_map_get
  bf_map_get_lem map key = rw (jlg_lem map key)

  entry_status-Least :
      (f : Contents) (from : ℕ) (p : Pointer)
      → IsFirst f from p
      → Least f from (entry_status judy p)
  entry_status-Least f from pjerr h = h
  entry_status-Least f from null h = h
  entry_status-Least f from (slot i v) h = (h.0, h.2, h.3)

  -- `bf_map_get_first` finds the entry of the least key.
  pub bf_map_get_first-Least : (map : Arr) → Least (lookup map) 0 (bf_map_get_first judy map)
  unfolding bf_map_get_first
  bf_map_get_first-Least map = entry_status-Least (lookup map) 0 (jlf map 0) (jlf-IsFirst map 0)
