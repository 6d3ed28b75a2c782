-- ===== src/Map/Refinement.antt =====
-- src/map/map.c against its specification, a partial function from keys to data.
use target_utils.Base.{
  ℕ, ◌≡◌, ◌≢◌, refl, sym, ap, ◌∙◌, Option, none, some, List, [], ◌∷◌, arith, ◌==◌, if◌then◌else◌,
  ==_iff, ne→==,
}
use mathlib.Core.Path.{ap₂, fun_ext}
use target_utils.Judy.One.{Rc, jerr, rc_zero, rc_one}
use target_utils.Judy.Many.{
  JudyL, Pointer, pjerr, null, slot, slot_of, value_or, Inserted, HasMemory,
}
use target_utils.Map.{
  Status, bf_map_ok, bf_map_err, bf_map_no_key, bf_map_key_exists, add_at, bf_map_add, rmv_status,
  bf_map_rmv, read_status, bf_map_get, bf_map_get_rmv, bf_map_get_first, bf_map_get_first_rmv,
  then_rmv_entry,
}
use target_utils.Map.Contents.{
  Contents, Same, Added, Removed, Least, bf_map_add-Added, bf_map_rmv-Removed, bf_map_get_lem,
  bf_map_get_first-Least,
}

-- A call of the interface, and what it answers.
pub data Call : Type 0 where
  add : ℕ → ℕ → Call
  rmv get get_rmv : ℕ → Call

abbrev pub Answer : Type 0
Answer = Status × Option ℕ

abbrev pub update : Contents → ℕ → Option ℕ → Contents
update f key o k = if key == k then o else f k

-- The specification.
abbrev pub spec_add : Contents → ℕ → ℕ → Option ℕ → Contents × Answer
spec_add f key word none = (update f key (some word), (bf_map_ok, none))
spec_add f key word (some v) =
    if v == 0 then (update f key (some word), (bf_map_ok, none)) else (f, (bf_map_key_exists, none))

abbrev pub spec_rmv : Contents → ℕ → Option ℕ → Contents × Answer
spec_rmv f key none = (f, (bf_map_no_key, none))
spec_rmv f key (some v) = (update f key none, (bf_map_ok, none))

abbrev pub spec_get : Option ℕ → Answer
spec_get none = (bf_map_no_key, none)
spec_get (some v) = (bf_map_ok, some v)

abbrev pub spec_get_rmv : Contents → ℕ → Option ℕ → Contents × Answer
spec_get_rmv f key none = (f, (bf_map_no_key, none))
spec_get_rmv f key (some v) = (update f key none, (bf_map_ok, some v))

abbrev pub spec_step : Contents → Call → Contents × Answer
spec_step f (add key word) = spec_add f key word (f key)
spec_step f (rmv key) = spec_rmv f key (f key)
spec_step f (get key) = (f, spec_get (f key))
spec_step f (get_rmv key) = spec_get_rmv f key (f key)

unfoldable pub spec_run : Contents → List Call → List Answer
spec_run f [] = []
spec_run f (c ∷ cs) = (spec_step f c).1 ∷ spec_run (spec_step f c).0 cs

-- `g` is `f` without the entry that a call handed out, if it did.
abbrev pub Taken : Contents → Contents → Option (ℕ × ℕ) → Type 0
Taken f g none = Same f g
Taken f g (some (i, v)) = (k : ℕ) → g k ≡ update f i none k

-- An addition and a removal that did not run out of memory agree with the specification.
add_agrees :
    (f g : Contents) (key word : ℕ) (o : Option ℕ) (sts : Status)
    → f key ≡ o
    → sts ≢ bf_map_err
    → Added f key word g sts
    → (let answer : Answer = (sts, none) in answer ≡ (spec_add f key word o).1)
      × Same (spec_add f key word o).0 g
add_agrees f g key word o bf_map_err e h t = absurd (h refl)
add_agrees f g key word o bf_map_no_key e h t = absurd t
add_agrees f g key word none bf_map_ok e h t = (refl, t.1)
add_agrees f g key word none bf_map_key_exists e h t = absurd (t.0 (ap (λ x. value_or x 0) e))
add_agrees f g key word (some v) bf_map_ok e h t =
    rw ((==_iff v 0).1 (sym (ap (λ x. value_or x 0) e) ∙ t.0)) (refl, t.1)
add_agrees f g key word (some v) bf_map_key_exists e h t =
    rw (ne→== v 0 (λ z. t.0 (ap (λ x. value_or x 0) e ∙ z))) (refl, t.1)

rmv_agrees :
    (f g : Contents) (key : ℕ) (o : Option ℕ) (sts : Status)
    → f key ≡ o
    → sts ≢ bf_map_err
    → Removed f key g sts
    → (let answer : Answer = (sts, none) in answer ≡ (spec_rmv f key o).1)
      × Same (spec_rmv f key o).0 g
rmv_agrees f g key o bf_map_err e h t = absurd (h refl)
rmv_agrees f g key o bf_map_key_exists e h t = absurd t
rmv_agrees f g key none bf_map_ok e h t = absurd (t.0 e)
rmv_agrees f g key none bf_map_no_key e h t = (refl, t.1)
rmv_agrees f g key (some v) bf_map_ok e h t = (refl, t.1)
rmv_agrees f g key (some v) bf_map_no_key e h t = cc

module _ (judy : JudyL) where
  open judy use {Arr, lookup, jli, store, jld, jli-Inserted, jld-Deleted}

  abbrev pub code_step : Arr → Call → Arr × Answer
  code_step a (add key word) = let r = bf_map_add judy a key word in (r.0, (r.1, none))
  code_step a (rmv key) = let r = bf_map_rmv judy a key in (r.0, (r.1, none))
  code_step a (get key) = (a, bf_map_get judy a key)
  code_step a (get_rmv key) = let r = bf_map_get_rmv judy a key in (r.0, (r.1, r.2))

  unfoldable pub code_run : Arr → List Call → List Answer
  code_run a [] = []
  code_run a (c ∷ cs) = (code_step a c).1 ∷ code_run (code_step a c).0 cs

  module _ (memory : HasMemory judy) where
    bf_map_add-ne-err : (a : Arr) (key word : ℕ) → (bf_map_add judy a key word).1 ≢ bf_map_err
    unfolding bf_map_add
    bf_map_add-ne-err a key word = by_pointer (jli a key).1 (memory a key).0 (jli-Inserted a key)
      where
        by_pointer :
            (p : Pointer)
            → p ≢ pjerr
            → Inserted (lookup a) key (lookup (jli a key).0) p
            → (add_at judy (jli a key).0 word p).1 ≢ bf_map_err
        by_pointer pjerr h t = λ _. h refl
        by_pointer null h t = absurd t
        by_pointer (slot i v) h t = ground arith

    bf_map_rmv-ne-err : (a : Arr) (key : ℕ) → (bf_map_rmv judy a key).1 ≢ bf_map_err
    unfolding bf_map_rmv
    bf_map_rmv-ne-err a key = by_rc (jld a key).1 (memory a key).1
      where
        by_rc : (rc : Rc) → rc ≢ jerr → rmv_status judy rc ≢ bf_map_err
        by_rc jerr h = λ _. h refl
        by_rc rc_zero h = λ e. cc
        by_rc rc_one h = λ e. cc

    get_rmv_agrees :
        (a : Arr) (key : ℕ) (o : Option ℕ)
        → lookup a key ≡ o
        → ((code_step a (get_rmv key)).1 ≡ (spec_get_rmv (lookup a) key o).1)
          × Same (spec_get_rmv (lookup a) key o).0 (lookup (code_step a (get_rmv key)).0)
    unfolding bf_map_get_rmv
    get_rmv_agrees a key none e = rw (bf_map_get_lem judy a key, e) (refl, λ k. refl)
    get_rmv_agrees a key (some v) e =
        let t =
          rmv_agrees (lookup a) (lookup (bf_map_rmv judy a key).0) key (some v)
            (bf_map_rmv judy a key).1 e (bf_map_rmv-ne-err a key) (bf_map_rmv-Removed judy a key) in
        rw (bf_map_get_lem judy a key, e) (cc (t.0), t.1)

    -- One call: the same answer, and contents that still agree.
    step_agrees :
        (a : Arr) (c : Call)
        → ((code_step a c).1 ≡ (spec_step (lookup a) c).1)
          × Same (spec_step (lookup a) c).0 (lookup (code_step a c).0)
    step_agrees a (add key word) =
        add_agrees (lookup a) _ key word (lookup a key) _ refl (bf_map_add-ne-err a key word)
          (bf_map_add-Added judy a key word)
    step_agrees a (rmv key) =
        rmv_agrees (lookup a) _ key (lookup a key) _ refl (bf_map_rmv-ne-err a key)
          (bf_map_rmv-Removed judy a key)
    step_agrees a (get key) = (bf_map_get_lem judy a key ∙ got (lookup a key), λ k. refl)
      where
        got : (o : Option ℕ) → read_status judy (slot_of key o) ≡ spec_get o
        got none = refl
        got (some v) = refl
    step_agrees a (get_rmv key) = get_rmv_agrees a key (lookup a key) refl

    -- As long as memory does not run out, any sequence of calls of `bf_map_add`, `bf_map_rmv`,
    -- `bf_map_get` and `bf_map_get_rmv` on an array gets the answers of the partial function that
    -- the array holds: an addition is refused exactly when the key holds data other than NULL, a
    -- removal or a read fails exactly when the key is absent.
    pub code_run-spec_run : (a : Arr) (cs : List Call) → code_run a cs ≡ spec_run (lookup a) cs
    unfolding code_run spec_run
    code_run-spec_run a [] = refl
    code_run-spec_run a (c ∷ cs) =
        let t = step_agrees a c in
        ap₂ ◌∷◌ t.0 (code_run-spec_run (code_step a c).0 cs ∙ ap (λ g. spec_run g cs) (fun_ext t.1))

    -- As long as memory does not run out, `bf_map_get_first_rmv` takes out the entry of the least
    -- key and no other, and changes nothing when it reports that the map is empty.
    pub bf_map_get_first_rmv_lem :
        (a : Arr)
        → let r = bf_map_get_first_rmv judy a in
          Least (lookup a) 0 (r.1, r.2) × Taken (lookup a) (lookup r.0) r.2
    unfolding bf_map_get_first_rmv
    bf_map_get_first_rmv_lem a =
        by_first (bf_map_get_first judy a).0 (bf_map_get_first judy a).1
          (bf_map_get_first-Least judy a)
      where
        by_first :
            (sts : Status) (e : Option (ℕ × ℕ))
            → Least (lookup a) 0 (sts, e)
            → let r = then_rmv_entry judy a sts e in
              Least (lookup a) 0 (r.1, r.2) × Taken (lookup a) (lookup r.0) r.2
        by_first bf_map_ok (some (i, v)) h =
            let t =
              rmv_agrees (lookup a) (lookup (bf_map_rmv judy a i).0) i (some v)
                (bf_map_rmv judy a i).1 h.1 (bf_map_rmv-ne-err a i) (bf_map_rmv-Removed judy a i) in
            rw (ap (λ (x : Answer). x.0) t.0) (h, t.1)
        by_first bf_map_ok none h = absurd h
        by_first bf_map_no_key none h = (h, λ k. refl)
        by_first bf_map_no_key (some e) h = absurd h
        by_first bf_map_err e h = absurd h
        by_first bf_map_key_exists e h = absurd h
