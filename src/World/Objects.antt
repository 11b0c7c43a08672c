-- ===== src/World/Objects.antt =====
-- The objects of a room as a list of numbers, which the links of mp2/world.c stand for.
pub mod Chains
pub mod Contents
use ece_391_fall.Prelude.{
  ℕ, zero, suc, ◌+◌, ◌<◌, ◌≤◌, ◌≡◌, ◌≢◌, inl, inr, refl, arith, List, [], ◌∷◌, Bool, true, false,
  not, ◌&&◌, ◌||◌, ◌==◌, ==_iff, Bool-cases, if◌then◌else◌, length,
}

unfoldable pub mem : ℕ → List ℕ → Bool
mem o [] = false
mem o (x ∷ xs) = x == o || mem o xs

unfoldable pub distinct : List ℕ → Bool
distinct [] = true
distinct (x ∷ xs) = not (mem x xs) && distinct xs

-- The list without the object.
unfoldable pub erase : ℕ → List ℕ → List ℕ
erase o [] = []
erase o (x ∷ xs) = if x == o then xs else x ∷ erase o xs

pub mem-erase :
    (o p : ℕ) (xs : List ℕ) → distinct xs ≡ true → mem p (erase o xs) ≡ (not (o == p) && mem p xs)
unfolding mem distinct erase
mem-erase o p [] h = ground arith
mem-erase o p (x ∷ xs) h = ground (arith, h, mem-erase o p xs)

pub erase_absent : (o : ℕ) (xs : List ℕ) → mem o xs ≡ false → erase o xs ≡ xs
unfolding mem erase
erase_absent o [] h = refl
erase_absent o (x ∷ xs) h = ground (arith, h, erase_absent o xs)

pub distinct-erase : (o : ℕ) (xs : List ℕ) → distinct xs ≡ true → distinct (erase o xs) ≡ true
unfolding mem distinct erase
distinct-erase o [] h = refl
distinct-erase o (x ∷ xs) h = ground (arith, h, distinct-erase o xs, mem-erase o x xs)

length-erase : (o : ℕ) (xs : List ℕ) → mem o xs ≡ true → suc (length (erase o xs)) ≡ length xs
unfolding mem erase
length-erase o [] h = ground arith
length-erase o (x ∷ xs) h = ground (arith, h, length-erase o xs)

-- Distinct numbers below `n` are at most `n`.
pub length_small :
    (n : ℕ) (xs : List ℕ) → distinct xs ≡ true → ((o : ℕ) → mem o xs ≡ true → o < n) → length xs ≤ n
unfolding mem
length_small n [] h below = omega arith
length_small zero (x ∷ xs) h below = absurd (ground (arith, below x))
length_small (suc n) (x ∷ xs) h below = elim (Bool-cases (mem n (x ∷ xs))) [
  | inl e ↦ ground (
    arith,
    length-erase n (x ∷ xs) e,
    length_small n (erase n (x ∷ xs)) (distinct-erase n (x ∷ xs) h)
        (λ o ho. ground (arith, below o, mem-erase n o (x ∷ xs) h)),
  )
  | inr e ↦ ground (arith, length_small n (x ∷ xs) h (λ o ho. ground (arith, below o, e, ho)))
]
