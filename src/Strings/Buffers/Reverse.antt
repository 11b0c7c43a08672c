-- ===== src/Strings/Buffers/Reverse.antt =====
-- strrev against the reversed string.
use ece_391_fall.Prelude.{
  ℕ, zero, suc, ◌+◌, ◌-◌, ◌*◌, ◌≤◌, ◌<◌, ◌≡◌, ◌≢◌, refl, ap, ◌∙◌, arith, ◌&&◌, Bool-cases, inl, inr,
  some, ltb, leb, ◌==◌, ==_iff, if◌then◌else◌, update,
}
use ece_391_fall.Strings.Buffers.{string_length, swap_from, strrev}

-- The string of length `len` in a buffer.
abbrev pub HasLength : (ℕ → ℕ) → ℕ → Type 0
HasLength s len = (s len ≡ 0) × ((i : ℕ) → i < len → s i ≢ 0)

pub string_length_lem :
    (k i len : ℕ) (s : ℕ → ℕ)
    → HasLength s len
    → i ≤ len
    → len < i + k
    → string_length k s i ≡ some len
unfolding string_length
string_length_lem zero i len s h low high = absurd (omega arith)
string_length_lem (suc k) i len s h low high = elim (Bool-cases (i == len)) [
  | inl e ↦ let same = (==_iff i len).0 e in rw (same, h.0, string_length) refl
  | inr e ↦
      let later : i < len = ground (arith, e, low) in
      let rest = string_length_lem k (i + 1) len s h (omega arith) (omega arith) in
      ground (arith, h.1 i later, rest)
]

-- The bytes from `beg` to `end` in reverse, and all others as they were.
abbrev pub reversed : (ℕ → ℕ) → ℕ → ℕ → ℕ → ℕ
reversed s beg end i = if leb beg i && leb i end then s (beg + end - i) else s i

reversed-short : (beg end i : ℕ) (s : ℕ → ℕ) → end ≤ beg → s i ≡ reversed s beg end i
reversed-short beg end i s h = elim (Bool-cases (leb beg i && leb i end)) [
  | inl e ↦ rw e (ap s (ground (arith, e, h)))
  | inr e ↦ rw e refl
]

-- One exchange at the ends, and the rest reversed.
reversed-step :
    (beg end i : ℕ) (s : ℕ → ℕ)
    → beg < end
    → reversed (update (update s end (s beg)) beg (s end)) (beg + 1) (end - 1) i
      ≡ reversed s beg end i
reversed-step beg end i s h = elim (Bool-cases (i == beg)) [
  | inl e ↦ ground (arith, e, h, ap s {x = end} {y = beg + end - i})
  | inr e ↦ elim (Bool-cases (i == end)) [
    | inl f ↦ ground (arith, e, f, h, ap s {x = beg} {y = beg + end - i})
    | inr f ↦ ground (arith, e, f, h, ap s {x = beg + 1 + (end - 1) - i} {y = beg + end - i})
  ]
]

swap_from-reversed :
    (k beg end i : ℕ) (s : ℕ → ℕ)
    → end < beg + 2 * k + 1
    → swap_from k s beg end i ≡ reversed s beg end i
unfolding swap_from
swap_from-reversed zero beg end i s h = reversed-short beg end i s (omega arith)
swap_from-reversed (suc k) beg end i s h = elim (Bool-cases (ltb beg end)) [
  | inl e ↦
      let s' = update (update s end (s beg)) beg (s end) in
      rw (e, swap_from)
        (swap_from-reversed k (beg + 1) (end - 1) i s' (ground (arith, e, h))
          ∙ reversed-step beg end i s (ground (arith, e)))
  | inr e ↦ rw (e, swap_from) (reversed-short beg end i s (ground (arith, e)))
]

whole :
    (len i : ℕ) (s : ℕ → ℕ)
    → HasLength s len
    → reversed s 0 (len - 1) i ≡ (if ltb i len then s (len - 1 - i) else s i)
whole len i s string = elim (Bool-cases (ltb i len)) [
  | inl e ↦ ground (arith, e, ap s {x = 0 + (len - 1) - i} {y = len - 1 - i})
  | inr e ↦ elim (Bool-cases (leb i (len - 1))) [
    | inl f ↦ ground (arith, e, f, ap s {x = 0 + (len - 1) - i} {y = i})
    | inr f ↦ ground (arith, e, f)
  ]
]

-- strrev of a string that ends inside its buffer succeeds: the bytes before the NUL come out in reverse
-- order, and no other byte changes.
pub strrev_lem :
    (n len : ℕ) (s : ℕ → ℕ)
    → len < n
    → HasLength s len
    → (out : ℕ → ℕ) × (strrev n s ≡ some out)
      × ((i : ℕ) → out i ≡ (if ltb i len then s (len - 1 - i) else s i))
unfolding strrev
strrev_lem n len s h string = (
  swap_from len s 0 (len - 1),
  rw (string_length_lem n 0 len s string (omega arith) (omega arith), strrev) refl,
  λ i. swap_from-reversed len 0 (len - 1) i s (omega arith) ∙ whole len i s string,
)
