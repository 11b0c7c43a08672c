-- ===== src/Prelude/Tables.antt =====
-- Checking a statement about small numbers by evaluation.
use Prim.Native.Nat.{ℕ, zero, suc, ◌<◌}
use mathlib.Core.Path.{◌≡◌}
use mathlib.Core.Bool.{◌&&◌, Bool, true}
use native.Mathlib.Omega.{arith}

-- The test is true of every index under the limit.
unfoldable pub holds_to : ℕ → (ℕ → Bool) → Bool
holds_to zero test = true
holds_to (suc limit) test = holds_to limit test && test limit

pub holds_to_lem :
    (limit : ℕ) (test : ℕ → Bool) (k : ℕ) → k < limit → holds_to limit test ≡ true → test k ≡ true
unfolding holds_to
holds_to_lem zero test k small h = absurd (omega arith)
holds_to_lem (suc limit) test k small h = ground (arith, h, holds_to_lem limit test k)
