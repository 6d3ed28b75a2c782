-- ===== src/Id/Allocate.antt =====
-- `bf_id_allocator_allocate_contiguous` of src/id/id.c as a whole.
use target_utils.Base.{
  ℕ, zero, suc, ◌+◌, ◌%◌, ◌<◌, ◌≡◌, ◌≢◌, refl, Bool, true, false, Option, none, some, ◌&&◌, ◌||◌,
  arith, word64, minus_one, ltb, leb, ◌==◌, ==_iff, if◌then◌else◌, Bool-cases, Option-cases, ltb→lt,
  ltb→le, le→ltb, lt→leb, leb→lt, leb→le, inl, inr, ◌⊎◌,
}
use target_utils.Judy.One.{Judy1, Rc, jerr, rc_zero, rc_one, IsFirst, Wrote, HasMemory}
use target_utils.Base.Run.{Run, ok, abort, out_of_fuel, ◌>>=◌, Returns}
use target_utils.Id.{
  Allocator, set_run, id_of, next_or, finish_search, fuel_for, allocate_from, wrap_around,
  bf_id_allocator_allocate_contiguous,
}
use target_utils.Id.Room.{
  IsRoom, IsSettled, IsTaken, Finds, IsBounded, clear_until, Inv, search_loop-Finds,
}

-- The indexes from `q`, `count` of them.
abbrev pub in_run : ℕ → ℕ → ℕ → Bool
in_run q count k = leb q k && ltb k (q + count)

module _ (judy : Judy1) where
  open judy use {Arr, test, j1s, j1u, j1n, j1fe, j1s-Wrote, j1u-Wrote, j1n-IsFirst, j1fe-IsFirst}

  abbrev pub members : Allocator judy → ℕ → Bool
  members al = test al.array

  -- The ids in use are within the size, which fits a signed 32-bit number.
  pub record IsValid (al : Allocator judy) : Type 0 where
    pub small : al.size < 0x8000_0000
    pub bounded : IsBounded (members al) al.size

  -- Nothing changed.
  abbrev pub IsKept : Allocator judy → Allocator judy × ℕ → Type 0
  IsKept al (al', r) = (r ≡ minus_one) × ((k : ℕ) → members al' k ≡ members al k)

  -- A run was marked, and the id of its start is the answer.
  abbrev pub IsMarked : Allocator judy → ℕ → ℕ → Allocator judy × ℕ → Type 0
  IsMarked al count q (al', r) =
      (r ≡ id_of al.zero_based q) × ((k : ℕ) → members al' k ≡ in_run q count k || members al k)

  abbrev pub SameShape : Allocator judy → Allocator judy × ℕ → Type 0
  SameShape al (al', r) = (al'.size ≡ al.size) × (al'.zero_based ≡ al.zero_based)

  -- A run was taken; or nothing changed, or the call goes on, and no room is settled.
  abbrev pub Allocated : Allocator judy → ℕ → Run (Allocator judy × ℕ) → Type 0
  Allocated al count abort = ⊥
  Allocated al count out_of_fuel = (q : ℕ) → ¬ IsSettled (members al) al.size count q
  Allocated al count (ok r) =
      SameShape al r
      × ((IsKept al r × ((q : ℕ) → ¬ IsSettled (members al) al.size count q))
          ⊎ ((q : ℕ) × IsTaken (members al) al.size count q × IsMarked al count q r))

  -- The first room was taken.
  abbrev pub TookFirst : Allocator judy → ℕ → Allocator judy × ℕ → Type 0
  TookFirst al count r =
      SameShape al r
      × ((q : ℕ) × IsRoom (members al) al.size count q
          × ((p : ℕ) → p < q → ¬ IsRoom (members al) al.size count p)
          × IsMarked al count q r)

  module _ (memory : HasMemory judy) where
    pub test-j1s : (a : Arr) (i k : ℕ) → test (j1s a i).0 k ≡ (if i == k then true else test a k)
    test-j1s a i k = by_rc (j1s a i).1 (memory a i).0 (j1s-Wrote a i)
      where
        by_rc :
            (rc : Rc)
            → rc ≢ jerr
            → Wrote (test a) i true (test (j1s a i).0) rc
            → test (j1s a i).0 k ≡ (if i == k then true else test a k)
        by_rc jerr h w = absurd (h refl)
        by_rc rc_zero h w = w.1 k
        by_rc rc_one h w = w.1 k

    pub test-j1u : (a : Arr) (i k : ℕ) → test (j1u a i).0 k ≡ (if i == k then false else test a k)
    test-j1u a i k = by_rc (j1u a i).1 (memory a i).1 (j1u-Wrote a i)
      where
        by_rc :
            (rc : Rc)
            → rc ≢ jerr
            → Wrote (test a) i false (test (j1u a i).0) rc
            → test (j1u a i).0 k ≡ (if i == k then false else test a k)
        by_rc jerr h w = absurd (h refl)
        by_rc rc_zero h w = w.1 k
        by_rc rc_one h w = w.1 k

    test-set_run :
        (n i : ℕ) (a : Arr) (k : ℕ)
        → i + n < word64
        → test (set_run judy n i a) k ≡ in_run i n k || test a k
    unfolding set_run
    test-set_run zero i a k h = ground arith
    test-set_run (suc n) i a k h =
        let step : (i + 1) % word64 ≡ i + 1 = omega arith in
        rw step (ground (arith, test-set_run n (i + 1) (j1s a i).0 k (omega arith), test-j1s a i k))

    module _ (al : Allocator judy) (count : ℕ) (valid : IsValid al) (pos : 0 < count)
        (byte : count < 256) where
      finished : Run (Option ℕ) → Run (Allocator judy × ℕ)
      finished run = do found ← run; ok (finish_search judy al count found)

      -- The outcome of the search gives that of the call.
      finish_search-Allocated :
          (run : Run (Option ℕ))
          → Finds (members al) al.size count run
          → Allocated al count (finished run)
      unfolding finished
      finish_search-Allocated abort h = h
      finish_search-Allocated out_of_fuel h = h
      finish_search-Allocated (ok none) h = ((refl, refl), inl ((refl, λ k. refl), h))
      finish_search-Allocated (ok (some q)) taken = rw (le→ltb al.size q taken.0) (
        (refl, refl),
        inr (
          q,
          taken,
          (refl, λ k. test-set_run count q al.array k (omega (arith, taken.0, valid.small))),
        ),
      )

      start_Inv :
          (q : ℕ) (o : Option ℕ)
          → q < al.size
          → IsFirst (members al) false 0 (some q)
          → IsFirst (members al) true (suc q) o
          → Inv judy al.array al.size count (next_or al.size o) q
      start_Inv q none h first stop = record {
        ordered = omega arith;
        begins = inl h;
        inside = omega arith;
        clear =
            clear_until (members al) q al.size first.2
              (λ j p r. stop j p (omega (arith, valid.small)));
        ends = inr refl;
        before = λ p r room. first.3 p (omega arith) r (room.1 p (omega arith) (omega arith));
      }
      start_Inv q (some k) h first stop = record {
        ordered = omega (arith, stop.0);
        begins = inl (omega (arith, stop.0));
        inside = elim (Bool-cases (ltb k al.size)) [
          | inl near ↦ omega (arith, ltb→lt k al.size near)
          | inr far ↦ let off = valid.bounded k (ltb→le k al.size far) in let on = stop.2 in cc
        ];
        clear = clear_until (members al) q k first.2 (λ j p r. stop.3 j p r);
        ends = inl stop.2;
        before = λ p r room. first.3 p (omega arith) r (room.1 p (omega arith) (omega arith));
      }

      -- No room begins where all indexes are set.
      no-IsRoom :
          ((k : ℕ) → k < al.size → members al k ≢ false)
          → (q : ℕ) → ¬ IsRoom (members al) al.size count q
      no-IsRoom set q room = set q (omega (arith, room.0)) (room.1 q (omega arith) (omega arith))

      one-IsTaken :
          (q : ℕ)
          → q < al.size
          → IsFirst (members al) false 0 (some q)
          → count ≡ 1
          → IsTaken (members al) al.size count q
      one-IsTaken q h first one = (
        omega arith,
        (λ k p r. let same : k ≡ q = omega arith in rw same first.2),
        (λ p r room. first.3 p (omega arith) r (room.1 p (omega arith) (omega arith))),
        inl (omega arith),
      )

      from_first :
          (q : ℕ)
          → q < al.size
          → IsFirst (members al) false 0 (some q)
          → Allocated al count (allocate_from judy al count q)
      unfolding finished
      from_first q h first = rw (lt→leb al.size q h) (elim (Bool-cases (count == 1)) [
        | inl one ↦ rw one (
          (refl, refl),
          inr (
            q,
            one-IsTaken q h first ((==_iff count 1).0 one),
            (refl, λ k. ground (arith, test-j1s al.array q k, one)),
          ),
        )
        | inr more ↦ rw more (
            finish_search-Allocated _ (
              search_loop-Finds judy al.array al.size count (omega (arith, valid.small)) pos byte
                valid.bounded (fuel_for judy al) (next_or al.size (j1n al.array q)) q (omega arith)
                (start_Inv q _ h first (j1n-IsFirst al.array q))))
      ])

      -- The second J1FE, of the same array from the same index, answers as the first did.
      pub wrap_around_lem :
          (index : ℕ) → j1fe al.array 0 ≡ some index → wrap_around judy al index ≡ index
      wrap_around_lem index e = elim (Bool-cases (leb al.size index)) [
        | inl over ↦ rw (over, e)
        | inr under ↦ rw under
      ]

      -- Nothing is changed where no index within the size is clear.
      nothing_left :
          ((k : ℕ) → k < al.size → members al k ≢ false) → Allocated al count (ok (al, minus_one))
      nothing_left full =
          ((refl, refl), inl ((refl, λ k. refl), λ q settled. no-IsRoom full q settled.0))

      -- On a valid allocator and a count of 1 to 255, as long as memory does not run out and
      -- whatever a failed J1N leaves in its index, the call either changes nothing and returns -1,
      -- or goes on for more than size + 2 rounds of its loop, in both cases only where no run of
      -- `count` free indexes within the size has an index in use behind it or all indexes before it
      -- in use; or it marks a run of `count` free indexes that starts at or below the size, with no
      -- such run within the size before it, and which ends within the size unless all indexes from
      -- its start on are free, and returns the id of its start.
      pub bf_id_allocator_allocate_contiguous-Allocated :
          Allocated al count (bf_id_allocator_allocate_contiguous judy al count)
      unfolding bf_id_allocator_allocate_contiguous
      bf_id_allocator_allocate_contiguous-Allocated = elim (Option-cases (j1fe al.array 0)) [
        | inl e ↦
            let full : IsFirst (members al) false 0 none = rw e at (j1fe-IsFirst al.array 0) in
            rw (e, bf_id_allocator_allocate_contiguous)
              (nothing_left (λ k p. full k (omega arith) (omega (arith, valid.small))))
        | inr (index, e) ↦
            let first : IsFirst (members al) false 0 (some index) =
              rw e at (j1fe-IsFirst al.array 0) in
            rw (e, bf_id_allocator_allocate_contiguous, wrap_around_lem index e)
              (elim (Bool-cases (leb al.size index)) [
                | inl over ↦
                    rw over (
                      nothing_left
                        (λ k p. first.3 k (omega arith) (omega (arith, leb→le _ _ over))))
                | inr under ↦ from_first index (leb→lt al.size index under) first
              ])
      ]

      -- A settled room is not behind the run that is taken.
      settled_first :
          (q p : ℕ)
          → IsTaken (members al) al.size count q
          → IsSettled (members al) al.size count p
          → IsRoom (members al) al.size count q
      settled_first q p (le, clear, before, inl fits) (room, sure) = (fits, clear)
      settled_first q p (le, clear, before, inr tail) (room, sure) = elim (Bool-cases (ltb p q)) [
        | inl early ↦ absurd (before p (ltb→lt p q early) room)
        | inr late ↦ elim sure [
          | inl (k, beyond, on) ↦ let off = tail k (omega (arith, ltb→le p q late)) in absurd cc
          | inr full ↦ elim (Bool-cases (ltb q p)) [
            | inl behind ↦
                let on = full q (ltb→lt q p behind) in let off = tail q (omega arith) in absurd cc
            | inr level ↦ (omega (arith, ltb→le p q late, ltb→le q p level, room.0), clear)
          ]
        ]
      ]

      -- On a valid allocator and a count of 1 to 255, as long as memory does not run out and
      -- whatever a failed J1N leaves in its index, the call ends, takes the first run of `count`
      -- free indexes within the size, marks exactly these as in use and returns the id of the
      -- first, where some such run has an index in use behind it or has all indexes before it in
      -- use.
      pub bf_id_allocator_allocate_contiguous-TookFirst :
          (p : ℕ)
          → IsSettled (members al) al.size count p
          → Returns (bf_id_allocator_allocate_contiguous judy al count) (TookFirst al count)
      bf_id_allocator_allocate_contiguous-TookFirst p settled =
          by_run (bf_id_allocator_allocate_contiguous judy al count)
            bf_id_allocator_allocate_contiguous-Allocated
        where
          by_run :
              (run : Run (Allocator judy × ℕ))
              → Allocated al count run
              → Returns run (TookFirst al count)
          by_run abort h = absurd h
          by_run out_of_fuel h = absurd (h p settled)
          by_run (ok r) (shape, inl (kept, none_left)) = absurd (none_left p settled)
          by_run (ok r) (shape, inr (q, taken, marked)) =
              (r, refl, (shape, (q, settled_first q p taken settled, taken.2, marked)))
