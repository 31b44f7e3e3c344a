-- ===== src/Common/Bytes.antt =====
-- A test that is run on every pair of register numbers.
use Prim.Native.Nat.{ℕ, zero, suc, ◌+◌, ◌≤◌, ◌<◌}
use mathlib.Core.Path.{◌≡◌}
use mathlib.Core.Bool.{Bool, true, ◌&&◌}
use native.Mathlib.Omega.{arith}

-- The test at the numbers from `x` to `x + left - 1`.
unfoldable pub passes_from : (x left : ℕ) → (ℕ → Bool) → Bool
passes_from x zero test = true
passes_from x (suc left) test = passes_from (suc x) left test && test x

pub passes_from-at :
    (x left : ℕ) (test : ℕ → Bool) (y : ℕ)
    → passes_from x left test ≡ true
    → x ≤ y
    → y < x + left
    → test y ≡ true
unfolding passes_from
passes_from-at x zero test y passed low high = absurd (omega arith)
passes_from-at x (suc left) test y passed low high =
    ground (arith, passes_from-at (suc x) left test y)

unfoldable pub all_pairs : (ℕ → ℕ → Bool) → Bool
unfolding passes_from
all_pairs test = passes_from 0 8 (λ x. passes_from 0 8 (test x))

pub all_pairs_sound :
    (test : ℕ → ℕ → Bool) (x y : ℕ) → all_pairs test ≡ true → x < 8 → y < 8 → test x y ≡ true
unfolding all_pairs
all_pairs_sound test x y passed hx hy =
    let row =
      passes_from-at 0 8 (λ x. passes_from 0 8 (test x)) x passed (omega arith) (omega arith) in
    passes_from-at 0 8 (test x) y row (omega arith) (omega arith)
