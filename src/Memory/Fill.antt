-- ===== src/Memory/Fill.antt =====
-- memset, memset_word and memset_dword of mp3/student-distrib/lib.c.
use ece_391_fall.Prelude.{
  ℕ, zero, suc, ◌+◌, ◌*◌, ◌/◌, ◌%◌, ◌^◌, ◌<◌, ◌≡◌, ◌∙◌, arith, Bool-cases, inl, inr, ltb, leb, ◌==◌,
  ◌&&◌, if◌then◌else◌,
}
use ece_391_fall.Memory.{Mem, store}

-- A double word is stored, the low byte first.
abbrev pub store4 : Mem → ℕ → ℕ → Mem
store4 m edi eax =
    let m1 = store m edi (eax % 256) in
    let m2 = store m1 (edi + 1) (eax / 2 ^ 8 % 256) in
    let m3 = store m2 (edi + 2) (eax / 2 ^ 16 % 256) in store m3 (edi + 3) (eax / 2 ^ 24 % 256)

-- `rep stosl`, and `rep stosw`.
pub stosl : ℕ → Mem → ℕ → ℕ → Mem
stosl zero m edi eax = m
stosl (suc ecx) m edi eax = stosl ecx (store4 m edi eax) (edi + 4) eax

pub stosw : ℕ → Mem → ℕ → ℕ → Mem
stosw zero m edi eax = m
stosw (suc ecx) m edi eax =
    stosw ecx (store (store m edi (eax % 256)) (edi + 1) (eax / 2 ^ 8 % 256)) (edi + 2) eax

-- `.memset_bottom`.
pub memset_bottom : ℕ → Mem → ℕ → ℕ → Mem
memset_bottom zero m edi eax = m
memset_bottom (suc edx) m edi eax = memset_bottom edx (store m edi (eax % 256)) (edi + 1) eax

-- `.memset_aligned`.
pub memset_aligned : ℕ → Mem → ℕ → ℕ → Mem
unfolding stosl memset_bottom
memset_aligned ecx m edi eax =
    memset_bottom (ecx % 4) (stosl (ecx / 4) m edi eax) (edi + 4 * (ecx / 4)) eax

-- `.memset_top`.
pub memset_top : ℕ → Mem → ℕ → ℕ → Mem
unfolding memset_aligned
memset_top zero m edi eax = m
memset_top (suc ecx) m edi eax =
    let rest = memset_top ecx (store m edi (eax % 256)) (edi + 1) eax in
    if edi % 4 == 0 then memset_aligned (suc ecx) m edi eax else rest

-- The four bytes of the value that is stored have no bit in common, so that `|` adds them.
pub memset : Mem → ℕ → ℕ → ℕ → Mem
unfolding memset_top
memset m s c n = let b : ℕ = c % 256 in memset_top n m s (b * 2 ^ 24 + b * 2 ^ 16 + b * 2 ^ 8 + b)

pub memset_word : Mem → ℕ → ℕ → ℕ → Mem
unfolding stosw
memset_word m s c n = stosw n m s c

pub memset_dword : Mem → ℕ → ℕ → ℕ → Mem
unfolding stosl
memset_dword m s c n = stosl n m s c

-- The memory with `n` bytes of value `b` at `s`.
abbrev pub set_to : Mem → ℕ → ℕ → ℕ → Mem
set_to m s b n a = if leb s a && ltb a (s + n) then b else m a

module _ (b : ℕ) (small : b < 256) where
  abbrev word : ℕ
  word = b * 2 ^ 24 + b * 2 ^ 16 + b * 2 ^ 8 + b

  store4-set_to :
      (k edi a : ℕ) (m : Mem)
      → set_to (store4 m edi word) (edi + 4) b (4 * k) a ≡ set_to m edi b (4 * suc k) a
  store4-set_to k edi a m =
      let b0 : word % 256 ≡ b = omega (arith, small) in
      let b1 : word / 2 ^ 8 % 256 ≡ b = omega (arith, small) in
      let b2 : word / 2 ^ 16 % 256 ≡ b = omega (arith, small) in
      let b3 : word / 2 ^ 24 % 256 ≡ b = omega (arith, small) in rw (b0, b1, b2, b3) (ground arith)

  stosl-set_to : (k edi a : ℕ) (m : Mem) → stosl k m edi word a ≡ set_to m edi b (4 * k) a
  unfolding stosl
  stosl-set_to zero edi a m = ground arith
  stosl-set_to (suc k) edi a m =
      stosl-set_to k (edi + 4) a (store4 m edi word) ∙ store4-set_to k edi a m

  memset_bottom-set_to : (k edi a : ℕ) (m : Mem) → memset_bottom k m edi word a ≡ set_to m edi b k a
  unfolding memset_bottom
  memset_bottom-set_to zero edi a m = ground arith
  memset_bottom-set_to (suc k) edi a m =
      memset_bottom-set_to k (edi + 1) a (store m edi (word % 256)) ∙ ground (arith, small)

  memset_aligned-set_to :
      (ecx edi a : ℕ) (m : Mem) → memset_aligned ecx m edi word a ≡ set_to m edi b ecx a
  unfolding memset_aligned
  memset_aligned-set_to ecx edi a m =
      memset_bottom-set_to (ecx % 4) (edi + 4 * (ecx / 4)) a (stosl (ecx / 4) m edi word)
      ∙ ground (arith, stosl-set_to (ecx / 4) edi a m)

  memset_top-set_to : (ecx edi a : ℕ) (m : Mem) → memset_top ecx m edi word a ≡ set_to m edi b ecx a
  unfolding memset_top
  memset_top-set_to zero edi a m = ground arith
  memset_top-set_to (suc ecx) edi a m = elim (Bool-cases (edi % 4 == 0)) [
    | inl e ↦ rw (e, memset_top) (memset_aligned-set_to (suc ecx) edi a m)
    | inr e ↦
        rw (e, memset_top)
          (memset_top-set_to ecx (edi + 1) a (store m edi (word % 256)) ∙ ground (arith, small))
  ]

-- memset gives the low byte of its value to the `n` bytes, whatever their alignment, and to no other.
pub memset_lem : (m : Mem) (s c n a : ℕ) → memset m s c n a ≡ set_to m s (c % 256) n a
unfolding memset
memset_lem m s c n a = memset_top-set_to (c % 256) (omega arith) n s a m
