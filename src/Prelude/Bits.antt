-- ===== src/Prelude/Bits.antt =====
-- Tests that are evaluated for every byte.
use Prim.Native.Nat.{ℕ, zero, suc, ◌<◌}
use mathlib.Core.Path.{◌≡◌}
use mathlib.Core.Bool.{Bool, true, ◌&&◌}
use native.Mathlib.Omega.{arith}

-- The test holds of the `n` first numbers.
unfoldable pub for_all : (ℕ → Bool) → ℕ → Bool
for_all test zero = true
for_all test (suc k) = for_all test k && test k

-- So it holds of each of them.
pub for_all-lt : (test : ℕ → Bool) (k : ℕ) {x : ℕ} → x < k → for_all test k ≡ true → test x ≡ true
unfolding for_all
for_all-lt test zero below h = absurd (omega arith)
for_all-lt test (suc k) {x} below h = ground (arith, for_all-lt test k {x = x})
