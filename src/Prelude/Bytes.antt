-- ===== src/Prelude/Bytes.antt =====
-- Facts about a byte are checked over all its values.
use Prim.Native.Nat.{ℕ, zero, suc, ◌<◌}
use mathlib.Core.Path.{◌≡◌}
use mathlib.Core.Bool.{Bool, true, ◌&&◌}
use native.Mathlib.Omega.{arith}

unfoldable pub every_below : ℕ → (ℕ → Bool) → Bool
every_below zero test = true
every_below (suc bound) test = test bound && every_below bound test

-- A test that every number below the bound passes is passed by each of them.
pub every_below_at :
    (bound : ℕ) (test : ℕ → Bool) (k : ℕ)
    → every_below bound test ≡ true
    → k < bound
    → test k ≡ true
unfolding every_below
every_below_at zero test k passed small = absurd (omega arith)
every_below_at (suc bound) test k passed small = ground (arith, every_below_at bound test k)
