-- ===== src/Strings/Compare.antt =====
-- strlen and strncmp against what a string is: the bytes before its first NUL.
use ece_391_fall.Prelude.{
  ℕ, zero, suc, ◌+◌, ◌-◌, ◌<◌, ◌≡◌, ◌≢◌, ◌↔◌, inl, inr, refl, arith, sub32, ◌==◌, Bool-cases,
}
use ece_391_fall.Strings.{sext8, strncmp, strncmp_from}

-- Every value is a byte.
abbrev pub IsBytes : (ℕ → ℕ) → Type 0
IsBytes p = (i : ℕ) → p i < 256

-- Two buffers hold the same string of at most `n` bytes: they agree at each index below `n` that
-- no NUL comes before.
abbrev pub SameName : (ℕ → ℕ) → (ℕ → ℕ) → ℕ → Type 0
SameName p q n = (j : ℕ) → j < n → ((l : ℕ) → l < j → p l ≢ 0) → p j ≡ q j

-- The same from index `i` on.
SameFrom : (ℕ → ℕ) → (ℕ → ℕ) → ℕ → ℕ → Type 0
SameFrom p q n i = (j : ℕ) → j < n → ((l : ℕ) → l < j → p (i + l) ≢ 0) → p (i + j) ≡ q (i + j)

sext8-injective : (a b : ℕ) → a < 256 → b < 256 → sub32 (sext8 a) (sext8 b) ≡ 0 → a ≡ b
sext8-injective a b ha hb h = ground arith

sext8_self : (a b : ℕ) → a < 256 → a ≡ b → sub32 (sext8 a) (sext8 b) ≡ 0
sext8_self a b ha h = ground arith

module _ (p q : ℕ → ℕ) (hp : IsBytes p) (hq : IsBytes q) where
  -- One round: the buffers agree here, and further on unless the string ends.
  strncmp_from-step :
      (k i : ℕ)
      → strncmp_from (suc k) p q i ≡ 0
      → (p i ≡ q i) × (p i ≢ 0 → strncmp_from k p q (i + 1) ≡ 0)
  unfolding strncmp_from
  strncmp_from-step k i e = ground (arith, sext8-injective (p i) (q i) (hp i) (hq i))

  strncmp_from_sound : (k i : ℕ) → strncmp_from k p q i ≡ 0 → SameFrom p q k i
  unfolding SameFrom
  strncmp_from_sound zero i e j h before = absurd (omega arith)
  strncmp_from_sound (suc k) i e zero h before = ground (arith, (strncmp_from-step k i e).0)
  strncmp_from_sound (suc k) i e (suc j) h before = ground (
    arith,
    strncmp_from_sound k (i + 1)
        ((strncmp_from-step k i e).1 (ground (arith, before 0 (omega arith)))) j (omega arith)
        (λ l hl. ground (arith, before (suc l) (omega arith))),
  )

  strncmp_from_complete : (k i : ℕ) → SameFrom p q k i → strncmp_from k p q i ≡ 0
  unfolding strncmp_from SameFrom
  strncmp_from_complete zero i h = refl
  strncmp_from_complete (suc k) i h = elim (Bool-cases (p i == 0)) [
    | inl ends ↦ ground (arith, sext8_self (p i) (q i) (hp i), here)
    | inr more ↦ ground (
      arith,
      sext8_self (p i) (q i) (hp i),
      here,
      strncmp_from_complete k (i + 1) (λ j hj before. ground (
        arith,
        h (suc j) (omega arith) (λ l hl. elim (Bool-cases (l == 0)) [
          | inl e ↦ ground arith
          | inr ne ↦ ground (arith, before (l - 1) (ground arith))
        ]),
      )),
    )
  ]
    where
      here : p i ≡ q i
      here = ground (arith, h 0 (omega arith) (λ l hl. absurd (omega arith)))

  -- Over bytes, strncmp answers 0 exactly when the two buffers hold the same string of at most
  -- `n` bytes.
  pub strncmp_iff : (n : ℕ) → (strncmp p q n ≡ 0) ↔ SameName p q n
  unfolding strncmp SameFrom
  strncmp_iff n = (
    λ e j hj before.
        ground (arith, strncmp_from_sound n 0 e j hj (λ l hl. ground (arith, before l hl))),
    λ h.
        strncmp_from_complete n 0
          (λ j hj before. ground (arith, h j hj (λ l hl. ground (arith, before l hl)))),
  )
