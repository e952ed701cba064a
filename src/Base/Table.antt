-- ===== src/Base/Table.antt =====
-- A fact about every number of a small range, by evaluation.
use Prim.Native.Nat.{ℕ, zero, suc, ◌<◌}
use mathlib.Core.Path.{◌≡◌}
use mathlib.Core.Bool.{Bool, true, ◌&&◌}
use native.Mathlib.Omega.{arith}

-- The test holds of every number below the bound.
unfoldable pub all_below : ℕ → (ℕ → Bool) → Bool
all_below zero test = true
all_below (suc bound) test = test bound && all_below bound test

pub all_below_sound :
    (test : ℕ → Bool) (bound x : ℕ) → x < bound → all_below bound test ≡ true → test x ≡ true
unfolding all_below
all_below_sound test zero x below h = absurd (omega arith)
all_below_sound test (suc bound) x below h = ground (arith, all_below_sound test bound x)
