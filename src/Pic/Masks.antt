-- ===== src/Pic/Masks.antt =====
-- Which interrupt lines are masked.
use ece_391_fall.Prelude.{
  ℕ, ◌-◌, ◌/◌, ◌%◌, ◌^◌, ◌≤◌, ◌<◌, ◌≡◌, refl, arith, bit_and, bit_or, Bool, true, false, ◌&&◌, ltb,
  ◌==◌, if◌then◌else◌, ==_iff, lt→ltb, le→ltb, ltb→lt, dec_lt, ap, ◌∙◌, holds_to, holds_to_lem,
}
use ece_391_fall.Pic.{Pic, enable_irq, disable_irq, i8259_init}

-- Bit `k` of a mask.
abbrev pub bit_of : ℕ → ℕ → ℕ
bit_of m k = m / 2 ^ k % 2

-- A line is masked when its bit in its controller's mask is 1.
abbrev pub masked : Pic → ℕ → ℕ
masked p irq = if ltb irq 8 then bit_of p.master_mask irq else bit_of p.slave_mask (irq - 8)

pub record IsPic (p : Pic) : Type 0 where
  pub master : p.master_mask < 256
  pub slave : p.slave_mask < 256

all_masks : (ℕ → ℕ → ℕ → Bool) → Bool
all_masks test = holds_to 256 (λ m. holds_to 8 (λ i. holds_to 8 (λ j. test m i j)))

all_masks_sound :
    (test : ℕ → ℕ → ℕ → Bool) (m i j : ℕ)
    → all_masks test ≡ true
    → m < 256
    → i < 8
    → j < 8
    → test m i j ≡ true
unfolding all_masks
all_masks_sound test m i j h hm hi hj =
    holds_to_lem 8 _ j hj (holds_to_lem 8 _ i hi (holds_to_lem 256 _ m hm h))

clear_test : ℕ → ℕ → ℕ → Bool
clear_test m i j =
    (bit_of (bit_and m (255 - 2 ^ i)) j == (if i == j then 0 else bit_of m j))
    && ltb (bit_and m (255 - 2 ^ i)) 256

set_test : ℕ → ℕ → ℕ → Bool
set_test m i j =
    (bit_of (bit_or m (2 ^ i)) j == (if i == j then 1 else bit_of m j))
    && ltb (bit_or m (2 ^ i)) 256

clear_table : all_masks clear_test ≡ true
unfolding all_masks holds_to clear_test
clear_table = refl

set_table : all_masks set_test ≡ true
unfolding all_masks holds_to set_test
set_table = refl

and-left : (a b : Bool) → (a && b) ≡ true → a ≡ true
and-left a b h = ground arith

and-right : (a b : Bool) → (a && b) ≡ true → b ≡ true
and-right a b h = ground arith

clear_bit :
    (m i j : ℕ)
    → m < 256
    → i < 8
    → j < 8
    → (bit_of (bit_and m (255 - 2 ^ i)) j ≡ (if i == j then 0 else bit_of m j))
      × (bit_and m (255 - 2 ^ i) < 256)
unfolding clear_test
clear_bit m i j hm hi hj =
    let t = all_masks_sound clear_test m i j clear_table hm hi hj in
    ((==_iff _ _).0 (and-left _ _ t), ltb→lt _ _ (and-right _ _ t))

set_bit :
    (m i j : ℕ)
    → m < 256
    → i < 8
    → j < 8
    → (bit_of (bit_or m (2 ^ i)) j ≡ (if i == j then 1 else bit_of m j)) × (bit_or m (2 ^ i) < 256)
unfolding set_test
set_bit m i j hm hi hj =
    let t = all_masks_sound set_test m i j set_table hm hi hj in
    ((==_iff _ _).0 (and-left _ _ t), ltb→lt _ _ (and-right _ _ t))

-- A change of one bit of the master's mask, or of the slave's, seen over the sixteen lines.
master_line :
    (m n s irq j v : ℕ)
    → irq < 8
    → (j < 8 → bit_of n j ≡ (if irq == j then v else bit_of m j))
    → (if ltb j 8 then bit_of n j else bit_of s (j - 8))
      ≡ (if irq == j then v else if ltb j 8 then bit_of m j else bit_of s (j - 8))
master_line m n s irq j v hi h = elim (dec_lt j 8) [
  | yes lt ↦ rw (lt→ltb j 8 lt) (h lt)
  | no ge ↦ let other : (irq == j) ≡ false = ground arith in rw (le→ltb j 8 (omega arith), other)
]

slave_line :
    (m s n irq j v : ℕ)
    → 8 ≤ irq
    → (8 ≤ j → bit_of n (j - 8) ≡ (if irq - 8 == j - 8 then v else bit_of s (j - 8)))
    → (if ltb j 8 then bit_of m j else bit_of n (j - 8))
      ≡ (if irq == j then v else if ltb j 8 then bit_of m j else bit_of s (j - 8))
slave_line m s n irq j v hi h = elim (dec_lt j 8) [
  | yes lt ↦ let other : (irq == j) ≡ false = ground arith in rw (lt→ltb j 8 lt, other)
  | no ge ↦
      let same : (irq - 8 == j - 8) ≡ (irq == j) = ground arith in
      rw (le→ltb j 8 (omega arith))
        (h (omega arith) ∙ ap (λ b. if b then v else bit_of s (j - 8)) same)
]

-- With masks that are bytes and a line below 16, enable_irq unmasks its line and leaves the other fifteen as they are; the masks stay bytes.
pub enable_irq-masked :
    (irq j : ℕ) (p : Pic)
    → IsPic p
    → irq < 16
    → j < 16
    → (masked (enable_irq irq p) j ≡ (if irq == j then 0 else masked p j))
      × IsPic (enable_irq irq p)
unfolding enable_irq
enable_irq-masked irq j p v hi hj = elim (dec_lt irq 8) [
  | yes lt ↦
      rw (le→ltb 15 irq (omega arith), lt→ltb irq 8 lt, enable_irq)
        (
          master_line p.master_mask _ p.slave_mask irq j 0 lt
              (λ h. (clear_bit p.master_mask irq j v.master lt h).0),
          record {
            master = (clear_bit p.master_mask irq 0 v.master lt (omega arith)).1;
            slave = v.slave;
          },
        )
  | no ge ↦
      rw (le→ltb 15 irq (omega arith), le→ltb irq 8 (omega arith), enable_irq)
        (
          slave_line p.master_mask p.slave_mask _ irq j 0 (omega arith) (λ h.
              (clear_bit p.slave_mask (irq - 8) (j - 8) v.slave (omega arith) (omega arith)).0),
          record {
            master = v.master;
            slave = (clear_bit p.slave_mask (irq - 8) 0 v.slave (omega arith) (omega arith)).1;
          },
        )
]

-- With masks that are bytes and a line below 16, disable_irq masks its line and leaves the other fifteen as they are; the masks stay bytes.
pub disable_irq-masked :
    (irq j : ℕ) (p : Pic)
    → IsPic p
    → irq < 16
    → j < 16
    → (masked (disable_irq irq p) j ≡ (if irq == j then 1 else masked p j))
      × IsPic (disable_irq irq p)
unfolding disable_irq
disable_irq-masked irq j p v hi hj = elim (dec_lt irq 8) [
  | yes lt ↦
      rw (le→ltb 15 irq (omega arith), lt→ltb irq 8 lt, disable_irq)
        (
          master_line p.master_mask _ p.slave_mask irq j 1 lt
              (λ h. (set_bit p.master_mask irq j v.master lt h).0),
          record {
            master = (set_bit p.master_mask irq 0 v.master lt (omega arith)).1;
            slave = v.slave;
          },
        )
  | no ge ↦
      rw (le→ltb 15 irq (omega arith), le→ltb irq 8 (omega arith), disable_irq)
        (
          slave_line p.master_mask p.slave_mask _ irq j 1 (omega arith)
              (λ h. (set_bit p.slave_mask (irq - 8) (j - 8) v.slave (omega arith) (omega arith)).0),
          record {
            master = v.master;
            slave = (set_bit p.slave_mask (irq - 8) 0 v.slave (omega arith) (omega arith)).1;
          },
        )
]

init_table :
    holds_to 16
      (λ j. (if ltb j 8 then bit_of 251 j else bit_of 255 (j - 8)) == (if 2 == j then 0 else 1))
    ≡ true
unfolding holds_to
init_table = refl

-- After i8259_init every line is masked but the cascade on line 2.
pub i8259_init-masked :
    (p : Pic) (j : ℕ)
    → j < 16
    → (masked (i8259_init p) j ≡ (if 2 == j then 0 else 1)) × IsPic (i8259_init p)
unfolding i8259_init
i8259_init-masked p j h = (
  (==_iff _ _).0 (holds_to_lem 16 _ j h init_table),
  record { master = omega arith; slave = omega arith },
)
