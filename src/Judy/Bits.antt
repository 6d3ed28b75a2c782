-- ===== src/Judy/Bits.antt =====
-- A Judy1 array as a list of bits, which shows that the interface can be met.
pub mod Search
use target_utils.Base.{Bool, true, false, not, List, [], refl, suc, ◌≢◌}
use target_utils.Judy.One.{Judy1, Rc, jerr, rc_of, HasMemory}
use Search.{member, same, write, up, down, write-Wrote, up-IsFirst, down-IsLast}

abbrev pub bits : Judy1
bits = record {
  Arr = List Bool;
  empty = [];
  test = member;
  j1s = λ a i. (write a i true, rc_of (not (same (member a i) true)));
  j1u = λ a i. (write a i false, rc_of (not (same (member a i) false)));
  j1f = λ a i. up true i a;
  j1n = λ a i. up true (suc i) a;
  j1p = λ a i. down true i a;
  j1fe = λ a i. up false i a;
  j1ne = λ a i. up false (suc i) a;
  j1le = λ a i. down false (suc i) a;
  j1pe = λ a i. down false i a;
  -- Judy1Next counts the index up first.
  j1n_left = λ a i. suc i;
  j1fe_left = λ a i. i;
  test-empty = λ i. refl;
  j1s-Wrote = λ a i. write-Wrote a i true;
  j1u-Wrote = λ a i. write-Wrote a i false;
  j1f-IsFirst = λ a i. up-IsFirst true i a;
  j1n-IsFirst = λ a i. up-IsFirst true (suc i) a;
  j1p-IsLast = λ a i. down-IsLast true i a;
  j1fe-IsFirst = λ a i. up-IsFirst false i a;
  j1ne-IsFirst = λ a i. up-IsFirst false (suc i) a;
  j1le-IsLast = λ a i. down-IsLast false (suc i) a;
  j1pe-IsLast = λ a i. down-IsLast false i a;
}

rc_of-ne-jerr : (b : Bool) → rc_of b ≢ jerr
rc_of-ne-jerr true = λ e. cc
rc_of-ne-jerr false = λ e. cc

pub bits-HasMemory : HasMemory bits
bits-HasMemory = λ a i. (rc_of-ne-jerr _, rc_of-ne-jerr _)
