-- ===== src/Strings/Buffers/Copies.antt =====
-- strcpy and strncpy against the source string.
use ece_391_fall.Prelude.{
  ℕ, zero, suc, ◌+◌, ◌≤◌, ◌<◌, ◌≡◌, ◌≢◌, refl, ap, arith, ◌&&◌, Bool-cases, inl, inr, false, some,
  leb, ◌==◌, ==_iff, if◌then◌else◌, update,
}
use ece_391_fall.Strings.Buffers.{copy_string, strcpy}
use ece_391_fall.Strings.Buffers.Reverse.{HasLength}

-- The bytes of `src` from `i` up to `len` in place of those of `dest`.
abbrev pub pasted : (ℕ → ℕ) → (ℕ → ℕ) → ℕ → ℕ → ℕ → ℕ
pasted dest src i len j = if leb i j && leb j len then src j else dest j

nonzero : (a : ℕ) → a ≢ 0 → (a == 0) ≡ false
nonzero a h = ground (arith, h)

copy_string-pasted :
    (k i len : ℕ) (dest src : ℕ → ℕ)
    → HasLength src len
    → i ≤ len
    → len < i + k
    → (out : ℕ → ℕ) × (copy_string k dest src i ≡ some out)
      × ((j : ℕ) → out j ≡ pasted dest src i len j)
unfolding copy_string
copy_string-pasted zero i len dest src h low high = absurd (omega (arith, low, high))
copy_string-pasted (suc k) i len dest src h low high = elim (Bool-cases (i == len)) [
  | inl e ↦
      let same = (==_iff i len).0 e in
      (
        update dest i 0,
        rw (same, h.0, copy_string) refl,
        λ j. elim (Bool-cases (i == j)) [
          | inl f ↦ ground (arith, same, f, h.0, ap src {x = len} {y = j})
          | inr f ↦ ground (arith, same, f)
        ],
      )
  | inr e ↦
      let later : i < len = ground (arith, e, low) in
      let (out, ran, bytes) =
        copy_string-pasted k (i + 1) len (update dest i (src i)) src h (omega (arith, later))
          (omega (arith, high)) in
      (
        out,
        rw (nonzero (src i) (h.1 i later), copy_string) ran,
        λ j. elim (Bool-cases (i == j)) [
          | inl f ↦ ground (arith, later, f, bytes j, ap src {x = i} {y = j})
          | inr f ↦ ground (arith, low, f, bytes j)
        ],
      )
]

-- strcpy of a string that ends inside its buffer copies it with its NUL, and changes no byte behind it.
pub strcpy_lem :
    (n len : ℕ) (dest src : ℕ → ℕ)
    → len < n
    → HasLength src len
    → (out : ℕ → ℕ) × (strcpy n dest src ≡ some out)
      × ((j : ℕ) → out j ≡ (if leb j len then src j else dest j))
unfolding strcpy
strcpy_lem n len dest src h string =
    let (out, ran, bytes) =
      copy_string-pasted n 0 len dest src string (omega arith) (omega (arith, h)) in
    (out, ran, λ j. ground (arith, bytes j))
