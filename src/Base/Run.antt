-- ===== src/Base/Run.antt =====
-- The outcome of code that asserts and loops: a value, the end of the process in a failed
-- assertion, or a loop that was given too little fuel.
use mathlib.Core.Bool.{Bool, true, false}
use mathlib.Core.Path.{◌≡◌}
use native.Mathlib.Omega.{arith}

pub data Run {ℓ} (Value : Type ℓ) : Type ℓ where
  abort out_of_fuel : Run Value
  ok : Value → Run Value

infixl 5 ◌>>=◌ ◌>>◌
-- `bf_sys_assert(test)`. The first argument says whether the build keeps assertions.
abbrev pub bf_sys_assert : Bool → Bool → Run (Unit {0})
bf_sys_assert false test = ok tt
bf_sys_assert true true = ok tt
bf_sys_assert true false = abort

-- A test that holds passes in either build.
pub bf_sys_assert_ok : (asserts test : Bool) → test ≡ true → bf_sys_assert asserts test ≡ ok tt
bf_sys_assert_ok asserts test h = ground arith

-- Code that follows is not reached after a run without a value.
abbrev pub ◌>>=◌ {ℓ κ} : {S : Type ℓ} {T : Type κ} (first : Run S) (next : S → Run T) → Run T
out_of_fuel >>= next = out_of_fuel
abort >>= next = abort
ok value >>= next = next value

abbrev pub ◌>>◌ {ℓ} : {T : Type ℓ} (first : Run (Unit {0})) (next : Run T) → Run T
first >> next = first >>= λ _. next

-- The code ends in a value, of which `Claim` holds.
abbrev pub Returns {ℓ κ} : {S : Type ℓ} (run : Run S) (Claim : S → Type κ) → Type (ℓ ⊔ κ)
Returns {S} run Claim = (value : S) × (run ≡ ok value) × Claim value
