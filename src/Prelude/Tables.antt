-- ===== src/Prelude/Tables.antt =====
-- A test of all numbers below a bound, for tables over bytes.
use Prim.Native.Nat.{ℕ, zero, suc, ◌<◌}
use mathlib.Core.Path.{◌≡◌}
use mathlib.Core.Bool.{Bool, true, false}
use native.Mathlib.Omega.{arith}
use native.Mathlib.Decide.{ℕ_discrete}
use qvod_player.Prelude.Tests.{if◌then◌else◌}

unfoldable pub passes : (ℕ → Bool) → ℕ → Bool
passes test zero = true
passes test (suc bound) = if test bound then passes test bound else false

-- The two parts of a test that passes.
passes-suc :
    (test : ℕ → Bool) (bound : ℕ)
    → passes test (suc bound) ≡ true
    → (test bound ≡ true) × (passes test bound ≡ true)
unfolding passes
passes-suc test bound h = ground arith

pub test_of_passes :
    (test : ℕ → Bool) (bound : ℕ) → passes test bound ≡ true → (n : ℕ) → n < bound → test n ≡ true
test_of_passes test zero h n below = absurd (omega arith)
test_of_passes test (suc bound) h n below =
    let (last, others) = passes-suc test bound h in
    elim (ℕ_discrete n bound) [
      | yes same ↦ rw same last
      | no differ ↦ test_of_passes test bound others n (omega arith)
    ]
