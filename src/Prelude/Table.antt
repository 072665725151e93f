-- ===== src/Prelude/Table.antt =====
-- Facts about every number below a bound, by evaluation.
use mathlib.Core.Path.{◌≡◌}
use mathlib.Core.Bool.{Bool, true, ◌&&◌}
use Prim.Native.Nat.{ℕ, zero, suc, ◌<◌}
use native.Mathlib.Omega.{arith}

unfoldable pub all_below : ℕ → (ℕ → Bool) → Bool
all_below zero test = true
all_below (suc bound) test = test bound && all_below bound test

-- A test that passes at each number below a bound passes at any of them.
pub all_below_at :
    (bound : ℕ) (test : ℕ → Bool)
    → all_below bound test ≡ true
    → (i : ℕ) → i < bound
    → test i ≡ true
unfolding all_below
all_below_at zero test passed i below = absurd (omega arith)
all_below_at (suc bound) test passed i below =
    let earlier : all_below bound test ≡ true → i < bound → test i ≡ true =
      λ p. all_below_at bound test p i in
    ground (arith, earlier)
