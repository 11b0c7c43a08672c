-- ===== src/Memory/Move.antt =====
-- memmove of mp3/student-distrib/lib.c: a copy byte by byte, upwards or downwards.
use ece_391_fall.Prelude.{
  ℕ, zero, suc, ◌+◌, ◌-◌, ◌≤◌, ◌<◌, ◌≡◌, ap, ◌∙◌, arith, Bool-cases, inl, inr, leb, ◌==◌, ==_iff,
  if◌then◌else◌,
}
use ece_391_fall.Memory.{Mem, store}
use ece_391_fall.Memory.Copy.{copied}

-- `rep movsb` with the direction flag clear.
pub movsb_up : ℕ → Mem → ℕ → ℕ → Mem
movsb_up zero m edi esi = m
movsb_up (suc ecx) m edi esi = movsb_up ecx (store m edi (m esi)) (edi + 1) (esi + 1)

-- `rep movsb` with the direction flag set.
pub movsb_down : ℕ → Mem → ℕ → ℕ → Mem
movsb_down zero m edi esi = m
movsb_down (suc ecx) m edi esi = movsb_down ecx (store m edi (m esi)) (edi - 1) (esi - 1)

pub memmove : Mem → ℕ → ℕ → ℕ → Mem
unfolding movsb_up movsb_down
memmove m dest src n =
    if leb dest src then movsb_up n m dest src else movsb_down n m (dest + n - 1) (src + n - 1)

movsb_up-copied :
    (n dest src a : ℕ) (m : Mem) → dest ≤ src → movsb_up n m dest src a ≡ copied m dest src n a
unfolding movsb_up
movsb_up-copied zero dest src a m h = ground arith
movsb_up-copied (suc n) dest src a m h =
    let m' = store m dest (m src) in
    movsb_up-copied n (dest + 1) (src + 1) a m' (omega (arith, h)) ∙ elim (Bool-cases (a == dest)) [
      | inl e ↦ ground (arith, e, h, ap m {x = src} {y = src + (a - dest)})
      | inr e ↦ ground (arith, e, h, ap m {x = src + 1 + (a - (dest + 1))} {y = src + (a - dest)})
    ]

movsb_down-copied :
    (n dest src a edi esi : ℕ) (m : Mem)
    → src < dest
    → edi + 1 ≡ dest + n
    → esi + 1 ≡ src + n
    → movsb_down n m edi esi a ≡ copied m dest src n a
unfolding movsb_down
movsb_down-copied zero dest src a edi esi m h e f = ground arith
movsb_down-copied (suc n) dest src a edi esi m h e f = elim (Bool-cases (n == 0)) [
  | inl g ↦
      let last : n ≡ 0 = (==_iff n 0).0 g in
      rw (last, movsb_down) (ground (arith, e, f, last, ap m {x = esi} {y = src + (a - dest)}))
  | inr g ↦
      let m' = store m edi (m esi) in
      movsb_down-copied n dest src a (edi - 1) (esi - 1) m' h (ground (arith, e, g))
        (ground (arith, f, g))
      ∙ elim (Bool-cases (a == edi)) [
        | inl q ↦ ground (arith, q, h, e, f, ap m {x = esi} {y = src + (a - dest)})
        | inr q ↦ ground (arith, q, h, e, f)
      ]
]

downwards :
    (n dest src a : ℕ) (m : Mem)
    → src < dest
    → movsb_down n m (dest + n - 1) (src + n - 1) a ≡ copied m dest src n a
unfolding movsb_down
downwards zero dest src a m h = ground arith
downwards (suc n) dest src a m h =
    movsb_down-copied (suc n) dest src a (dest + suc n - 1) (src + suc n - 1) m h (omega arith)
      (omega arith)

-- memmove places the source bytes at the destination and changes no other byte, however the two overlap.
pub memmove_lem : (m : Mem) (dest src n a : ℕ) → memmove m dest src n a ≡ copied m dest src n a
unfolding memmove
memmove_lem m dest src n a = elim (Bool-cases (leb dest src)) [
  | inl e ↦ rw (e, memmove) (movsb_up-copied n dest src a m (ground (arith, e)))
  | inr e ↦ rw (e, memmove) (downwards n dest src a m (ground (arith, e)))
]
