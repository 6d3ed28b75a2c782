-- ===== src/Id/Room.antt =====
-- The search for room in src/id/id.c, whatever a failed J1N leaves in its index.
use target_utils.Base.{
  ℕ, zero, suc, ◌+◌, ◌-◌, ◌≤◌, ◌<◌, ◌≡◌, ◌≢◌, Bool, true, false, Option, none, some, arith, word32,
  sub64, ltb, Bool-cases, Option-cases, ltb→lt, ltb→le, le→ltb, lt→ltb, ◌==◌, ==_iff, inl, inr, ◌⊎◌,
  sub64-eq-sub,
}
use target_utils.Judy.One.{Judy1, IsFirst}
use target_utils.Base.Run.{Run, ok, abort, out_of_fuel}
use target_utils.Id.{search_loop}

pub false_of_ne : {b : Bool} → b ≢ true → b ≡ false
false_of_ne {b} h = ground arith

-- The index found, and those up to the next set one, are clear.
pub clear_until :
    (p : ℕ → Bool) (e k : ℕ)
    → p e ≡ false
    → ((j : ℕ) → suc e ≤ j → j < k → p j ≢ true)
    → (j : ℕ) → e ≤ j
    → j < k
    → p j ≡ false
clear_until p e k here later j q r = elim (Bool-cases (ltb e j)) [
  | inl above ↦ false_of_ne (later j (ltb→lt e j above) r)
  | inr first_one ↦ let same : j ≡ e = omega (arith, ltb→le e j first_one) in rw same here
]

-- A run of `count` clear indexes within the size starts at `q`.
abbrev pub IsRoom : (ℕ → Bool) → ℕ → ℕ → ℕ → Type 0
IsRoom p size count q = (q + count ≤ size) × ((k : ℕ) → q ≤ k → k < q + count → p k ≡ false)

-- A room that the search is sure of: an index behind it is set, or all before it are.
abbrev pub IsSettled : (ℕ → Bool) → ℕ → ℕ → ℕ → Type 0
IsSettled p size count q =
    IsRoom p size count q
    × (((k : ℕ) × (q + count ≤ k) × (p k ≡ true)) ⊎ ((k : ℕ) → k < q → p k ≡ true))

-- A clear run with no room before it: a room, or one behind which all is clear.
abbrev pub IsTaken : (ℕ → Bool) → ℕ → ℕ → ℕ → Type 0
IsTaken p size count q =
    (q ≤ size)
    × ((k : ℕ) → q ≤ k → k < q + count → p k ≡ false)
    × ((r : ℕ) → r < q → ¬ IsRoom p size count r)
    × ((q + count ≤ size) ⊎ ((k : ℕ) → q ≤ k → p k ≡ false))

-- Such a run; or a failure, or a loop that goes on, where there is no settled room.
abbrev pub Finds : (ℕ → Bool) → ℕ → ℕ → Run (Option ℕ) → Type 0
Finds p size count abort = ⊥
Finds p size count out_of_fuel = (q : ℕ) → ¬ IsSettled p size count q
Finds p size count (ok none) = (q : ℕ) → ¬ IsSettled p size count q
Finds p size count (ok (some q)) = IsTaken p size count q

-- No index at or beyond the size is set.
abbrev pub IsBounded : (ℕ → Bool) → ℕ → Type 0
IsBounded p size = (k : ℕ) → size ≤ k → p k ≡ false

module _ (judy : Judy1) (a : judy.Arr) (size count : ℕ) where
  open judy use {test, j1n, j1fe, j1n_left, j1n-IsFirst, j1fe-IsFirst}

  -- `first_empty` starts a clear run that ends at `next_set`, and no room starts before it.
  pub record Inv (next_set first_empty : ℕ) : Type 0 where
    pub ordered : first_empty ≤ next_set
    pub begins : (first_empty < next_set) ⊎ (first_empty ≡ size)
    pub inside : next_set ≤ size
    pub clear : (k : ℕ) → first_empty ≤ k → k < next_set → test a k ≡ false
    pub ends : (test a next_set ≡ true) ⊎ (next_set ≡ size)
    pub before : (q : ℕ) → q < first_empty → ¬ IsRoom (test a) size count q

  module _ (small : size < word32) (pos : 0 < count) (byte : count < 256)
      (bounded : IsBounded (test a) size) where
    -- A run that is too short holds no room, nor does what is set behind it.
    too_short :
        {ns fe : ℕ}
        → Inv ns fe
        → ns - fe < count
        → (e : ℕ) → ((k : ℕ) → ns ≤ k → k < e → test a k ≢ false)
        → (q : ℕ) → q < e
        → ¬ IsRoom (test a) size count q
    too_short {ns} {fe} v short e set q below room = elim (Bool-cases (ltb q fe)) [
      | inl early ↦ v.before q (ltb→lt q fe early) room
      | inr late ↦ elim (Bool-cases (ltb q ns)) [
        | inr far ↦ set q (ltb→le q ns far) below (room.1 q (omega arith) (omega arith))
        | inl inner ↦ elim v.ends [
          | inl stop ↦
              let clear_end =
                room.1 ns (omega (arith, ltb→lt q ns inner)) (omega (arith, ltb→le q fe late)) in
              cc
          | inr end ↦ omega (arith, ltb→le q fe late, room.0)
        ]
      ]
    ]

    -- The first empty index at or after a position within the size is within it.
    empty_inside : {ns : ℕ} (e : ℕ) → ns ≤ size → IsFirst (test a) false ns (some e) → e ≤ size
    empty_inside {ns} e h first = elim (Bool-cases (ltb size e)) [
      | inl far ↦ absurd (first.3 size h (ltb→lt size e far) (bounded size (omega arith)))
      | inr near ↦ ltb→le size e near
    ]

    -- The step to the next clear run.
    next_Inv :
        {ns fe : ℕ} (e k : ℕ)
        → Inv ns fe
        → ns - fe < count
        → IsFirst (test a) false ns (some e)
        → IsFirst (test a) true (suc e) (some k)
        → Inv k e
    next_Inv {ns} {fe} e k v short first stop = record {
      ordered = omega (arith, stop.0);
      begins = inl (omega (arith, stop.0));
      inside = elim (Bool-cases (ltb size k)) [
        | inl far ↦ let off = bounded k (omega (arith, ltb→lt size k far)) in let on = stop.2 in cc
        | inr near ↦ ltb→le size k near
      ];
      clear = clear_until (test a) e k first.2 (λ j p q. stop.3 j p q);
      ends = inl (stop.2);
      before = too_short v short e (λ j p q. first.3 j p q);
    }

    -- Behind the last index that is set all is clear.
    tail_clear :
        {ns : ℕ} (e : ℕ)
        → IsFirst (test a) false ns (some e)
        → IsFirst (test a) true (suc e) none
        → (k : ℕ) → e ≤ k
        → test a k ≡ false
    tail_clear e first stop k p = elim (Bool-cases (ltb k size)) [
      | inl near ↦
          clear_until (test a) e size first.2 (λ j p r. stop j p (omega arith)) k p
            (ltb→lt k size near)
      | inr far ↦ bounded k (ltb→le k size far)
    ]

    -- No room is settled where the search has come to the last run.
    unsettled :
        {ns fe : ℕ}
        → Inv ns fe
        → ns - fe < count
        → (e : ℕ) → IsFirst (test a) false ns (some e)
        → ((k : ℕ) → e ≤ k → test a k ≡ false)
        → (q : ℕ) → ¬ IsSettled (test a) size count q
    unsettled {ns} {fe} v short e first clear q (room, sure) = elim (Bool-cases (ltb q e)) [
      | inl early ↦ too_short v short e (λ j p r. first.3 j p r) q (ltb→lt q e early) room
      | inr late ↦ elim sure [
        | inl (k, beyond, on) ↦ let off = clear k (omega (arith, ltb→le q e late)) in absurd cc
        | inr full ↦ elim v.begins [
          | inl some_run ↦
              let on = full fe (omega (arith, ltb→le q e late, first.0)) in
              let off = v.clear fe (omega arith) some_run in absurd cc
          | inr border ↦ omega (arith, v.ordered, v.inside, first.0, ltb→le q e late, room.0)
        ]
      ]
    ]

    -- Where the end of the last run is not known, the subtraction wraps, and the loop ends.
    last_round :
        (fuel ns e : ℕ)
        → 0 < fuel
        → ns ≤ e
        → e ≤ size
        → ns ≢ e
        → search_loop judy a size count fuel ns e ≡ ok (some e)
    unfolding search_loop
    last_round zero ns e f p q n = absurd (omega arith)
    last_round (suc fuel) ns e f p q n = rw (le→ltb (sub64 ns e) count (omega arith), search_loop)

    -- At the size itself each round is as the one before it.
    stuck :
        (fuel : ℕ)
        → ((q : ℕ) → ¬ IsSettled (test a) size count q)
        → Finds (test a) size count (search_loop judy a size count fuel size size)
    unfolding search_loop
    stuck zero none_left = none_left
    stuck (suc fuel) none_left =
        let short : ltb (sub64 size size) count ≡ true =
          lt→ltb (sub64 size size) count (omega arith) in
        rw (short, search_loop)
          (elim (Option-cases (j1fe a size)) [
            | inl e₀ ↦ rw e₀ none_left
            | inr (e, e₀) ↦
                let first : IsFirst (test a) false size (some e) = rw e₀ at (j1fe-IsFirst a size) in
                let same : e ≡ size = omega (arith, first.0, empty_inside e (omega arith) first) in
                rw e₀ (elim (Option-cases (j1n a e)) [
                  | inr (k, k₀) ↦
                      let stop : IsFirst (test a) true (suc e) (some k) =
                        rw k₀ at (j1n-IsFirst a e) in
                      let off = bounded k (omega (arith, stop.0)) in let on = stop.2 in absurd cc
                  | inl k₀ ↦ rw k₀ (elim (Bool-cases (ltb (sub64 size (j1n_left a e)) count)) [
                    | inl full ↦ rw full none_left
                    | inr room ↦ rw (room, same) (stuck fuel none_left)
                  ])
                ])
          ])

    last_run :
        {ns fe : ℕ} (fuel e : ℕ)
        → size + 2 ≤ suc fuel + ns
        → Inv ns fe
        → ns - fe < count
        → IsFirst (test a) false ns (some e)
        → IsFirst (test a) true (suc e) none
        → Finds (test a) size count (search_loop judy a size count fuel ns e)
    last_run {ns} {fe} fuel e h v short first stop =
        let inside = empty_inside e v.inside first in
        let clear = tail_clear e first stop in
        elim (Bool-cases (ns == e)) [
          | inl met ↦
              let level : ns ≡ e = (==_iff ns e).0 met in
              let border : ns ≡ size = elim v.ends [
                | inl on ↦ let off = first.2 in absurd cc
                | inr end ↦ end
              ] in
              let here : e ≡ size = omega (arith, level, border) in
              rw (border, here) (stuck fuel (unsettled v short e first clear))
          | inr apart ↦
              rw
                (last_round fuel ns e (omega (arith, v.inside)) first.0 inside
                  (λ same. absurd (let t = (==_iff ns e).1 same in cc)))
                (
                  inside,
                  (λ k p q. clear k p),
                  too_short v short e (λ j p q. first.3 j p q),
                  inr clear,
                )
        ]

    -- The loop ends with enough fuel, unless no room is settled.
    pub search_loop-Finds :
        (fuel ns fe : ℕ)
        → size + 2 ≤ fuel + ns
        → Inv ns fe
        → Finds (test a) size count (search_loop judy a size count fuel ns fe)
    unfolding search_loop
    search_loop-Finds zero ns fe h v = absurd (omega (arith, v.inside))
    search_loop-Finds (suc fuel) ns fe h v =
        let exact = sub64-eq-sub ns fe v.ordered (omega (arith, v.inside)) in
        elim (Bool-cases (ltb (sub64 ns fe) count)) [
          | inr wide ↦
              let long : count ≤ ns - fe = omega (arith, exact, ltb→le _ _ wide) in
              rw (wide, search_loop)
                (
                  omega (arith, v.ordered, v.inside),
                  (λ k p q. v.clear k p (omega arith)),
                  v.before,
                  inl (omega (arith, v.ordered, v.inside)),
                )
          | inl short ↦
              let narrow : ns - fe < count = omega (arith, exact, ltb→lt _ _ short) in
              rw (short, search_loop)
                (elim (Option-cases (j1fe a ns)) [
                  | inl e₀ ↦
                      let full : IsFirst (test a) false ns none = rw e₀ at (j1fe-IsFirst a ns) in
                      rw e₀ (λ q settled.
                        let room = settled.0 in
                        too_short v narrow (suc q) (λ k p r. full k p (omega (arith, room.0))) q
                          (omega arith) room)
                  | inr (e, e₀) ↦
                      let first : IsFirst (test a) false ns (some e) =
                        rw e₀ at (j1fe-IsFirst a ns) in
                      rw e₀ (elim (Option-cases (j1n a e)) [
                        | inr (k, k₀) ↦
                            let stop : IsFirst (test a) true (suc e) (some k) =
                              rw k₀ at (j1n-IsFirst a e) in
                            rw k₀ (
                              search_loop-Finds fuel k e (omega (arith, first.0, stop.0))
                                (next_Inv e k v narrow first stop))
                        | inl k₀ ↦
                            let stop : IsFirst (test a) true (suc e) none =
                              rw k₀ at (j1n-IsFirst a e) in
                            rw k₀ (elim (Bool-cases (ltb (sub64 size (j1n_left a e)) count)) [
                              | inl full ↦
                                  rw full (unsettled v narrow e first (tail_clear e first stop))
                              | inr more ↦ rw more (last_run fuel e h v narrow first stop)
                            ])
                      ])
                ])
        ]
