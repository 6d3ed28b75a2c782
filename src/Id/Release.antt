-- ===== src/Id/Release.antt =====
-- `bf_id_allocator_release` and `bf_id_allocator_set` of src/id/id.c in terms of ids.
use target_utils.Base.{ℕ, ◌<◌, ◌≡◌, Bool, true, false, arith, word32, ◌==◌, if◌then◌else◌}
use target_utils.Base.Run.{Returns}
use target_utils.Judy.One.{Judy1, HasMemory}
use target_utils.Id.{Allocator, bf_id_allocator_release, bf_id_allocator_set}
use target_utils.Id.Allocate.{members, IsValid, test-j1s, test-j1u}
use target_utils.Id.InUse.{IsId, index_for, index_of_lem, holds-update, is_set, is_set-holds}

module _ (judy : Judy1) where
  open judy use {Arr, test, j1s, j1u, j1f, j1n, j1f-IsFirst, j1n-IsFirst, test-empty}

  module _ (memory : HasMemory judy) where
    module _ (asserts : Bool) (al : Allocator judy) (id : ℕ) (is_id : IsId al.zero_based id) where
      -- As long as memory does not run out, releasing an id fails no assertion, frees that id and
      -- no other, and keeps a valid allocator valid.
      pub bf_id_allocator_release-Returns :
          Returns (bf_id_allocator_release judy asserts al id) (λ al'.
            ((j : ℕ)
              → j < word32
              → is_set judy al' j ≡ (if id == j then false else is_set judy al j))
            × (IsValid judy al → IsValid judy al'))
      unfolding bf_id_allocator_release
      bf_id_allocator_release-Returns =
          let i = index_for al.zero_based id in
          (
            record al { array = (j1u al.array i).0 },
            rw (index_of_lem asserts al.zero_based id is_id),
            (
              λ j h.
                  rw (is_set-holds judy _ j h, is_set-holds judy al j h)
                    (holds-update (members judy al) _ false al.zero_based id j is_id
                      (test-j1u judy memory al.array i)),
              λ v. record {
                small = v.small;
                bounded =
                    λ k p. rw (test-j1u judy memory al.array i k) (ground (arith, v.bounded k p));
              },
            ),
          )

      -- As long as memory does not run out, setting an id fails no assertion, and brings that id
      -- and no other into use.
      pub bf_id_allocator_set-Returns : Returns (bf_id_allocator_set judy asserts al id) (λ al'.
          (j : ℕ) → j < word32 → is_set judy al' j ≡ (if id == j then true else is_set judy al j))
      unfolding bf_id_allocator_set
      bf_id_allocator_set-Returns =
          let i = index_for al.zero_based id in
          (
            record al { array = (j1s al.array i).0 },
            rw (index_of_lem asserts al.zero_based id is_id),
            λ j h.
                rw (is_set-holds judy _ j h, is_set-holds judy al j h)
                  (holds-update (members judy al) _ true al.zero_based id j is_id
                    (test-j1s judy memory al.array i)),
          )
