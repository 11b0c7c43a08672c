-- ===== src/Strings/Buffers/Digits.antt =====
-- itoa against the value of a string of digits.
use native.Mathlib.Nat.{
  mod-add-div, mod-lt, div-lt_iff_lt-mul, mul-le-mul_left, pow-succ', mul_comm,
}
use ece_391_fall.Prelude.{
  ℕ, zero, suc, ◌+◌, ◌-◌, ◌*◌, ◌/◌, ◌%◌, ◌^◌, ◌≤◌, ◌<◌, ◌≡◌, ◌≢◌, refl, sym, ap, ◌∙◌, arith, not,
  ◌&&◌, Bool-cases, inl, inr, true, false, some, leb, ◌==◌, ==_iff, if◌then◌else◌, update,
  update-same, update-other, holds_to, holds_to_lem, subst,
}
use ece_391_fall.Strings.Buffers.{lookup, put_digits, itoa, strrev}
use ece_391_fall.Strings.Buffers.Reverse.{HasLength, strrev_lem}

-- The value of a digit, `A` being 10.
abbrev pub digit : ℕ → ℕ
digit c = if leb c b'9' then c - b'0' else c - b'A' + 10

-- The value of the first `n` characters of a string.
abbrev pub denotes : ℕ → (ℕ → ℕ) → ℕ → ℕ
denotes radix s zero = 0
denotes radix s (suc n) = denotes radix s n * radix + digit (s n)

-- The value of `n` characters from `pos` on, the lowest digit first.
low_value : ℕ → (ℕ → ℕ) → ℕ → ℕ → ℕ
low_value radix s pos zero = 0
low_value radix s pos (suc n) = digit (s pos) + radix * low_value radix s (pos + 1) n

-- A character that is a digit in the radix.
abbrev pub IsDigit : ℕ → ℕ → Type 0
IsDigit radix c = (digit c < radix) × (c ≢ 0)

lookup_table : holds_to 36 (λ i. digit (lookup i) == i && not (lookup i == 0)) ≡ true
unfolding holds_to
lookup_table = refl

lookup_lem : (i : ℕ) → i < 36 → (digit (lookup i) ≡ i) × (lookup i ≢ 0)
lookup_lem i h =
    ground
      (arith, holds_to_lem 36 (λ i. digit (lookup i) == i && not (lookup i == 0)) i h lookup_table)

-- A record of what put_digits writes.
record Written (radix v pos : ℕ) (buf out : ℕ → ℕ) (n : ℕ) : Type 0 where
  value : low_value radix out pos n ≡ v
  ended : out (pos + n) ≡ 0
  before : (i : ℕ) → i < pos → out i ≡ buf i
  digits : (i : ℕ) → pos ≤ i → i < pos + n → IsDigit radix (out i)

smaller : (k radix v : ℕ) → 2 ≤ radix → v < 2 ^ suc k → v / radix < 2 ^ k
smaller k radix v h small =
    (div-lt_iff_lt-mul {k = radix} {x = v} {y = 2 ^ k} (omega (arith, h))).1
      (omega (arith, small, pow-succ' 2 k, mul-le-mul_left (2 ^ k) h))

-- Nothing is left to write but the NUL.
last-Written :
    (radix pos v : ℕ) (buf : ℕ → ℕ) → v ≡ 0 → Written radix v pos buf (update buf pos 0) 0
unfolding low_value
last-Written radix pos v buf e = record {
  value = sym e;
  ended = ground arith;
  before = λ i h. update-other buf pos 0 i (omega (arith, h));
  digits = λ i low high. absurd (omega (arith, low, high));
}

-- One digit more in front.
cons-Written :
    (radix v pos n : ℕ) (buf out : ℕ → ℕ)
    → 2 ≤ radix
    → radix ≤ 36
    → Written radix (v / radix) (pos + 1) (update buf pos (lookup (v % radix))) out n
    → Written radix v pos buf out (suc n)
unfolding low_value
cons-Written radix v pos n buf out low high w =
    let c = lookup (v % radix) in
    let small : v % radix < radix = mod-lt v (omega (arith, low)) in
    let good = lookup_lem (v % radix) (omega (arith, small, high)) in
    let first : out pos ≡ c = w.before pos (omega arith) ∙ update-same buf pos c in
    record {
      value = rw (first, good.0, w.value) (mod-add-div v radix);
      ended = subst (λ q. out q ≡ 0) (omega arith) w.ended;
      before = λ i h. w.before i (omega (arith, h)) ∙ update-other buf pos c i (omega (arith, h));
      digits = λ i h h'. elim (Bool-cases (pos == i)) [
        | inl e ↦
            let same = (==_iff pos i).0 e in
            subst (λ q. IsDigit radix (out q)) same (rw first (rw good.0 small, good.1))
        | inr e ↦ w.digits i (ground (arith, e, h)) (omega (arith, h'))
      ];
    }

put_digits-Written :
    (k radix v pos : ℕ) (buf : ℕ → ℕ)
    → 2 ≤ radix
    → radix ≤ 36
    → v < 2 ^ k
    → (out : ℕ → ℕ) × (n : ℕ) × (put_digits (suc k) radix v buf pos ≡ some out)
      × (n ≤ k)
      × Written radix v pos buf out n
unfolding put_digits
put_digits-Written zero radix v pos buf low high small =
    let none_left : v ≡ 0 = omega (arith, small) in
    (
      update buf pos 0,
      0,
      rw (none_left, put_digits) refl,
      omega arith,
      last-Written radix pos v buf none_left,
    )
put_digits-Written (suc k) radix v pos buf low high small = elim (Bool-cases (v == 0)) [
  | inl e ↦
      let none_left = (==_iff v 0).0 e in
      (
        update buf pos 0,
        0,
        rw (e, put_digits) refl,
        omega arith,
        last-Written radix pos v buf none_left,
      )
  | inr e ↦
      let buf' = update buf pos (lookup (v % radix)) in
      let (out, n, ran, few, w) =
        put_digits-Written k radix (v / radix) (pos + 1) buf' low high
          (smaller k radix v low small) in
      (
        out,
        suc n,
        rw (e, put_digits) ran,
        omega (arith, few),
        cons-Written radix v pos n buf out low high w,
      )
]

-- Read in reverse, the lowest digit comes last.
denotes-low_value :
    (radix n pos : ℕ) (s t : ℕ → ℕ)
    → ((i : ℕ) → i < n → t i ≡ s (pos + (n - 1 - i)))
    → denotes radix t n ≡ low_value radix s pos n
unfolding low_value
denotes-low_value radix zero pos s t h = refl
denotes-low_value radix (suc n) pos s t h =
    let rest : denotes radix t n ≡ low_value radix s (pos + 1) n =
      denotes-low_value radix n (pos + 1) s t
        (λ i small. h i (omega (arith, small)) ∙ ap s (omega (arith, small))) in
    let last : t n ≡ s pos = h n (omega arith) ∙ ap s (omega arith) in
    rw (rest, last, mul_comm (low_value radix s (pos + 1) n) radix) (omega arith)

Written-HasLength :
    (radix v n : ℕ) (buf out : ℕ → ℕ) → Written radix v 0 buf out n → HasLength out n
Written-HasLength radix v n buf out w = (
  subst (λ q. out q ≡ 0) (omega arith) w.ended,
  λ i h. (w.digits i (omega arith) (omega (arith, h))).1,
)

itoa-reversed :
    (n value radix : ℕ) (buf s out : ℕ → ℕ)
    → ((value == 0) ≡ false) × (put_digits n radix value buf 0 ≡ some s) × (strrev n s ≡ some out)
    → itoa n value buf radix ≡ some out
unfolding itoa
itoa-reversed n value radix buf s out (e, ran, turned) = rw (e, ran, itoa) turned

-- A buffer of `k + 1` bytes, at least two, holds any value below 2 ^ k in any radix from 2 to 36: itoa leaves in it
-- a string of digits of the radix that denotes the value, and its NUL inside the buffer.
pub itoa-denotes :
    (k value radix : ℕ) (buf : ℕ → ℕ)
    → 1 ≤ k
    → value < 2 ^ k
    → 2 ≤ radix
    → radix ≤ 36
    → (out : ℕ → ℕ) × (len : ℕ) × (itoa (suc k) value buf radix ≡ some out)
      × (len ≤ k)
      × (out len ≡ 0)
      × ((i : ℕ) → i < len → IsDigit radix (out i))
      × (denotes radix out len ≡ value)
unfolding itoa
itoa-denotes k value radix buf big small low high = elim (Bool-cases (value == 0)) [
  | inl e ↦
      let v = (==_iff value 0).0 e in
      (
        update (update buf 0 b'0') 1 0,
        1,
        rw (e, itoa) (ground (arith, big)),
        big,
        refl,
        λ i h. ground (arith, h, low),
        ground (arith, v),
      )
  | inr e ↦
      let (s, n, ran, few, w) = put_digits-Written k radix value 0 buf low high small in
      let (out, turned, bytes) =
        strrev_lem (suc k) n s (omega (arith, few)) (Written-HasLength radix value n buf s w) in
      (
        out,
        n,
        itoa-reversed (suc k) value radix buf s out (e, ran, turned),
        few,
        ground (arith, bytes n, (Written-HasLength radix value n buf s w).0),
        λ i h.
            subst (IsDigit radix) (sym (ground (arith, bytes i, h)))
              (w.digits (n - 1 - i) (omega arith) (omega (arith, h))),
        denotes-low_value radix n 0 s out (λ i h. ground (arith, bytes i, h)) ∙ w.value,
      )
]
