-- ===== src/Base/Tables.antt =====
-- A Boolean test on every number below a bound, evaluated once and read at any of them.
use Prim.Native.Nat.{ℕ, zero, suc, ◌<◌}
use mathlib.Core.Path.{◌≡◌}
use mathlib.Core.Bool.{Bool, true, ◌&&◌}
use native.Mathlib.Omega.{arith}

unfoldable pub passes_upto : ℕ → (ℕ → Bool) → Bool
passes_upto zero test = true
passes_upto (suc k) test = test k && passes_upto k test

pub passes_upto-at :
    (k : ℕ) (test : ℕ → Bool) (i : ℕ) → passes_upto k test ≡ true → i < k → test i ≡ true
unfolding passes_upto
passes_upto-at zero test i table low = absurd (omega (arith, low))
passes_upto-at (suc k) test i table low = ground (arith, passes_upto-at k test i)
