-- ===== src/Rtc/Frequency.antt =====
-- The frequencies that the clock accepts.
use ece_391_fall.Prelude.{
  ℕ, zero, suc, ◌-◌, ◌^◌, ◌≤◌, ◌≡◌, ◌≢◌, ◌⊎◌, inl, inr, refl, arith, minus_one, ◌==◌, ap, subst,
  ◌||◌, true, false, ℕ_discrete, holds_to, holds_to_lem,
}
use ece_391_fall.Rtc.{freq_to_rate}

-- `f` is 2 ^ k for a `k` from 1 to `n`.
abbrev pub PowerUpTo : ℕ → ℕ → Type 0
PowerUpTo n f = (k : ℕ) × (1 ≤ k) × (k ≤ n) × (f ≡ 2 ^ k)

-- A power of two from 2 to 1024.
abbrev pub IsFreq : ℕ → Type 0
IsFreq f = PowerUpTo 10 f

find_power : (n f : ℕ) → PowerUpTo n f ⊎ ((k : ℕ) → 1 ≤ k → k ≤ n → f ≢ 2 ^ k)
find_power zero f = inr (λ k lo hi e. absurd (omega arith))
find_power (suc n) f = elim (ℕ_discrete f (2 ^ suc n)) [
  | yes e ↦ inl (suc n, omega arith, omega arith, e)
  | no ne ↦ elim (find_power n f) [
    | inl (k, lo, hi, e) ↦ inl (k, lo, omega arith, e)
    | inr none_of ↦ inr (λ k lo hi e. elim (ℕ_discrete k (suc n)) [
      | yes last ↦ ne (subst (λ x. f ≡ 2 ^ x) last e)
      | no early ↦ none_of k lo (omega arith) e
    ])
  ]
]

rate_table : holds_to 11 (λ k. (freq_to_rate (2 ^ k) == 16 - k) || k == 0) ≡ true
unfolding holds_to freq_to_rate
rate_table = refl

rate_other : (f : ℕ) → ((k : ℕ) → 1 ≤ k → k ≤ 10 → f ≢ 2 ^ k) → freq_to_rate f ≡ minus_one
unfolding freq_to_rate
rate_other f h = ground (
  arith,
  h 1 (omega arith) (omega arith),
  h 2 (omega arith) (omega arith),
  h 3 (omega arith) (omega arith),
  h 4 (omega arith) (omega arith),
  h 5 (omega arith) (omega arith),
  h 6 (omega arith) (omega arith),
  h 7 (omega arith) (omega arith),
  h 8 (omega arith) (omega arith),
  h 9 (omega arith) (omega arith),
  h 10 (omega arith) (omega arith),
)

-- freq_to_rate accepts exactly the powers of two from 2 to 1024, and gives 2 ^ k the rate 16 - k,
-- at which the hardware ticks 32768 >> (rate - 1) times a second; it answers -1 for all else.
pub freq_to_rate_lem :
    (f : ℕ)
    → ((k : ℕ) × (1 ≤ k) × (k ≤ 10) × (f ≡ 2 ^ k) × (freq_to_rate f ≡ 16 - k))
      ⊎ (((k : ℕ) → 1 ≤ k → k ≤ 10 → f ≢ 2 ^ k) × (freq_to_rate f ≡ minus_one))
freq_to_rate_lem f = elim (find_power 10 f) [
  | inl (k, lo, hi, e) ↦ inl (
    k,
    lo,
    hi,
    e,
    ground (arith, e, ap freq_to_rate e, holds_to_lem 11 _ k (omega arith) rate_table),
  )
  | inr other ↦ inr (other, rate_other f other)
]

-- The test of rtc_write.
pub rate_good : (f : ℕ) → IsFreq f → (freq_to_rate f == minus_one) ≡ false
rate_good f (k, lo, hi, e) = elim (freq_to_rate_lem f) [
  | inl (j, jlo, jhi, je, rate) ↦ ground arith
  | inr (other, rate) ↦ absurd (other k lo hi e)
]

pub rate_bad : (f : ℕ) → ¬ IsFreq f → (freq_to_rate f == minus_one) ≡ true
rate_bad f bad = elim (freq_to_rate_lem f) [
  | inl (j, jlo, jhi, je, rate) ↦ absurd (bad (j, jlo, jhi, je))
  | inr (other, rate) ↦ ground arith
]
