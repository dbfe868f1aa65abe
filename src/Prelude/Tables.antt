-- ===== src/Prelude/Tables.antt =====
-- Facts about numbers in a small range, checked value by value.
use Prim.Native.Nat.{ℕ, zero, suc, ◌<◌}
use mathlib.Core.Path.{◌≡◌}
use mathlib.Core.Bool.{Bool, true, ◌&&◌}
use native.Mathlib.Omega.{arith}

-- The test holds of each number below the bound.
unfoldable pub passes_below : (ℕ → Bool) → ℕ → Bool
passes_below test zero = true
passes_below test (suc bound) = passes_below test bound && test bound

pub passes_below_at :
    (test : ℕ → Bool) (bound value : ℕ)
    → value < bound
    → passes_below test bound ≡ true
    → test value ≡ true
unfolding passes_below
passes_below_at test zero value below all = absurd (omega arith)
passes_below_at test (suc bound) value below all = ground (arith, passes_below_at test bound value)
