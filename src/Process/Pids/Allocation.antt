-- ===== src/Process/Pids/Allocation.antt =====
-- The process numbers: a new one is free, below 6 and the least.
use ece_391_fall.Prelude.{
  ℕ, zero, suc, ◌+◌, ◌<◌, ◌≤◌, ◌≡◌, ◌≢◌, subst, refl, arith, Bool-cases, inl, inr, false, Option,
  none, some, ◌==◌, ==_iff, update,
}
use ece_391_fall.Process.Pids.{find_pid, take_pid}

-- All six numbers are taken.
abbrev pub AllTaken : (ℕ → ℕ) → Type 0
AllTaken bitmap = (i : ℕ) → i < 6 → bitmap i ≢ 0

-- What take_pid answers: the least number that is free, which it takes, or that all are taken.
abbrev pub Taken : (ℕ → ℕ) → Option ℕ × (ℕ → ℕ) → Type 0
Taken bitmap (none, after) = AllTaken bitmap × ((i : ℕ) → after i ≡ bitmap i)
Taken bitmap (some pid, after) =
    (pid < 6)
    × (bitmap pid ≡ 0)
    × ((i : ℕ) → i < pid → bitmap i ≢ 0)
    × ((i : ℕ) → after i ≡ update bitmap pid 1 i)

unfoldable FirstFrom : ℕ → ℕ → (ℕ → ℕ) → Option ℕ → Type 0
FirstFrom k i bitmap none = (j : ℕ) → i ≤ j → j < i + k → bitmap j ≢ 0
FirstFrom k i bitmap (some p) =
    (p < i + k) × (bitmap p ≡ 0) × ((j : ℕ) → i ≤ j → j < p → bitmap j ≢ 0)

outside : (i j : ℕ) → i ≤ j → ¬ (j < i + zero)
outside i j low high = omega arith

passed : (i j : ℕ) → i ≤ j → ¬ (j < i)
passed i j low high = omega arith

occupied : (a : ℕ) → (a == 0) ≡ false → a ≢ 0
occupied a e = ground (arith, e)

FirstFrom-step :
    (k i : ℕ) (bitmap : ℕ → ℕ) (o : Option ℕ)
    → (bitmap i == 0) ≡ false
    → FirstFrom k (i + 1) bitmap o
    → FirstFrom (suc k) i bitmap o
unfolding FirstFrom
FirstFrom-step k i bitmap none e f = λ j low high. elim (Bool-cases (i == j)) [
  | inl g ↦ subst (λ x. bitmap x ≢ 0) ((==_iff i j).0 g) (occupied (bitmap i) e)
  | inr g ↦ f j (ground (arith, g, low)) (omega arith)
]
FirstFrom-step k i bitmap (some p) e f = (
  omega (arith, f.0),
  f.1,
  λ j low high. elim (Bool-cases (i == j)) [
    | inl g ↦ subst (λ x. bitmap x ≢ 0) ((==_iff i j).0 g) (occupied (bitmap i) e)
    | inr g ↦ f.2 j (ground (arith, g, low)) high
  ],
)

find_pid-FirstFrom : (k i : ℕ) (bitmap : ℕ → ℕ) → FirstFrom k i bitmap (find_pid k i bitmap)
unfolding find_pid FirstFrom
find_pid-FirstFrom zero i bitmap = λ j low high. elim (outside i j low high) [ ]
find_pid-FirstFrom (suc k) i bitmap = elim (Bool-cases (bitmap i == 0)) [
  | inl e ↦
      rw (e, find_pid)
        (omega arith, (==_iff (bitmap i) 0).0 e, λ j low high. elim (passed i j low high) [ ])
  | inr e ↦
      rw (e, find_pid)
        (FirstFrom-step k i bitmap (find_pid k (i + 1) bitmap) e
          (find_pid-FirstFrom k (i + 1) bitmap))
]

Taken-of :
    (bitmap : ℕ → ℕ) (o : Option ℕ)
    → FirstFrom 6 0 bitmap o
    → Taken bitmap (elim o [ none ↦ (none, bitmap) | some i ↦ (some i, update bitmap i 1) ])
unfolding FirstFrom
Taken-of bitmap none f = (λ i h. f i (omega arith) (omega arith), λ i. refl)
Taken-of bitmap (some p) f = (omega (arith, f.0), f.1, λ i h. f.2 i (omega arith) h, λ i. refl)

-- execute takes the least process number that is free, marks it and no other; it finds none exactly when
-- the six are taken, and then changes nothing.
pub take_pid-Taken : (bitmap : ℕ → ℕ) → Taken bitmap (take_pid bitmap)
unfolding take_pid
take_pid-Taken bitmap = Taken-of bitmap (find_pid 6 0 bitmap) (find_pid-FirstFrom 6 0 bitmap)
