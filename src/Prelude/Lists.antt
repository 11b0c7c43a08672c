-- ===== src/Prelude/Lists.antt =====
-- Lists measured by native numbers, and C arrays as functions of the index.
use Prim.Native.Nat.{ℕ, zero, suc, ◌+◌}
use mathlib.Core.Path.{◌≡◌, refl}
use mathlib.Core.Logic.{◌≢◌}
use mathlib.Core.Bool.{false}
use mathlib.Core.List.{List, [], ◌∷◌, ◌++◌}
use native.Mathlib.Omega.{arith}
use ece_391_fall.Prelude.Tests.{◌==◌, ==_iff, if◌then◌else◌}

differ : (i j : ℕ) → i ≢ j → (i == j) ≡ false
differ i j h = ground (arith, h)

module _ {ℓ} {A : Type ℓ} where
  abbrev pub length : List A → ℕ
  length [] = 0
  length (x ∷ xs) = suc (length xs)

  abbrev pub get_or : List A → ℕ → A → A
  get_or [] i d = d
  get_or (x ∷ xs) zero d = x
  get_or (x ∷ xs) (suc i) d = get_or xs i d

  pub length-append : (xs ys : List A) → length (xs ++ ys) ≡ length xs + length ys
  length-append [] ys = omega arith
  length-append (x ∷ xs) ys = omega (arith, length-append xs ys)

  -- An array element is replaced.
  abbrev pub update : (ℕ → A) → ℕ → A → ℕ → A
  update f i v j = if i == j then v else f j

  pub update-same : (f : ℕ → A) (i : ℕ) (v : A) → update f i v i ≡ v
  update-same f i v = rw ((==_iff i i).1 refl) refl

  pub update-other : (f : ℕ → A) (i : ℕ) (v : A) (j : ℕ) → i ≢ j → update f i v j ≡ f j
  update-other f i v j h = rw (differ i j h) refl
