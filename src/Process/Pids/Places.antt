-- ===== src/Process/Pids/Places.antt =====
-- The terminal that execute of mp3/student-distrib/system_calls.c gives to a new process.
use ece_391_fall.Prelude.{
  ℕ, zero, suc, ◌+◌, ◌<◌, ◌≡◌, ◌≢◌, ◌⊎◌, inl, inr, subst, refl, arith, Bool-cases, true, false,
  ◌||◌, ◌==◌, ==_iff, minus_one, if◌then◌else◌,
}
use ece_391_fall.Process.Pids.{start_from}

-- What a new process does to the three terminals: the first that is idle or has the parent has the new process,
-- and no other changes; or none is so, and nothing changes.
abbrev pub TakesPlace : ℕ → ℕ → (ℕ → ℕ) → (ℕ → ℕ) → Type 0
TakesPlace parent pid old new =
    ((t : ℕ) × (t < 3)
      × ((old t ≡ minus_one) ⊎ (old t ≡ parent))
      × ((j : ℕ) → j < t → (old j ≢ minus_one) × (old j ≢ parent))
      × ((j : ℕ) → new j ≡ (if t == j then pid else old j)))
    ⊎ (((j : ℕ) → j < 3 → (old j ≢ minus_one) × (old j ≢ parent)) × ((j : ℕ) → new j ≡ old j))

taken_place : (a p : ℕ) → (a == minus_one || a == p) ≡ true → (a ≡ minus_one) ⊎ (a ≡ p)
taken_place a p h = elim (Bool-cases (a == minus_one)) [
  | inl e ↦ inl ((==_iff a minus_one).0 e)
  | inr e ↦ inr (ground (arith, e, h))
]

left_place : (a p : ℕ) → (a == minus_one || a == p) ≡ false → (a ≢ minus_one) × (a ≢ p)
left_place a p h = (ground (arith, h), ground (arith, h))

start_from-TakesPlace :
    (k i parent pid : ℕ) (schedule : ℕ → ℕ)
    → i + k ≡ 3
    → ((j : ℕ) → j < i → (schedule j ≢ minus_one) × (schedule j ≢ parent))
    → TakesPlace parent pid schedule (start_from k i parent pid schedule)
unfolding start_from
start_from-TakesPlace zero i parent pid schedule sum before =
    inr (λ j h. before j (omega (arith, sum, h)), λ j. refl)
start_from-TakesPlace (suc k) i parent pid schedule sum before =
    elim (Bool-cases (schedule i == minus_one || schedule i == parent)) [
      | inl e ↦
          rw (e, start_from)
            (inl (i, omega (arith, sum), taken_place (schedule i) parent e, before, λ j. refl))
      | inr e ↦
          rw (e, start_from)
            (start_from-TakesPlace k (i + 1) parent pid schedule (omega (arith, sum)) (λ j h.
              elim (Bool-cases (i == j)) [
                | inl f ↦
                    subst (λ x. (schedule x ≢ minus_one) × (schedule x ≢ parent)) ((==_iff i j).0 f)
                      (left_place (schedule i) parent e)
                | inr f ↦ before j (ground (arith, f, h))
              ]))
    ]

-- The loop of execute over the three terminals.
pub start_from_lem :
    (parent pid : ℕ) (schedule : ℕ → ℕ)
    → TakesPlace parent pid schedule (start_from 3 0 parent pid schedule)
start_from_lem parent pid schedule =
    start_from-TakesPlace 3 0 parent pid schedule refl (λ j h. absurd (omega (arith, h)))
