-- ===== src/Memory/Copy.antt =====
-- memcpy against its contract: the aligned and unaligned loops together copy `n` bytes.
use ece_391_fall.Prelude.{
  ℕ, zero, suc, ◌+◌, ◌-◌, ◌*◌, ◌/◌, ◌%◌, ◌≡◌, ◌≤◌, ◌⊎◌, arith, ltb, leb, ◌&&◌, if◌then◌else◌,
}
use ece_391_fall.Memory.{
  Mem, store, memcpy_bottom, memcpy_top, memcpy_aligned, memcpy, movsl, move4,
}

-- The memory after `n` bytes of `src` have been placed at `dest`.
abbrev pub copied : Mem → ℕ → ℕ → ℕ → Mem
copied m dest src n a = if leb dest a && ltb a (dest + n) then m (src + (a - dest)) else m a

-- Two ranges of `n` bytes do not meet.
abbrev pub Apart : ℕ → ℕ → ℕ → Type 0
Apart d s n = (d + n ≤ s) ⊎ (s + n ≤ d)

memcpy_bottom_lem :
    (n : ℕ) (m : Mem) (d s a : ℕ) → Apart d s n → memcpy_bottom n m d s a ≡ copied m d s n a
unfolding memcpy_bottom
memcpy_bottom_lem zero m d s a h = ground arith
memcpy_bottom_lem (suc n) m d s a h =
    ground (arith, memcpy_bottom_lem n (store m d (m s)) (d + 1) (s + 1) a)

move4_lem : (m : Mem) (d s a : ℕ) → Apart d s 4 → move4 m d s a ≡ copied m d s 4 a
unfolding move4
move4_lem m d s a h = ground arith

movsl_lem :
    (n : ℕ) (m : Mem) (d s a : ℕ) → Apart d s (4 * n) → movsl n m d s a ≡ copied m d s (4 * n) a
unfolding movsl
movsl_lem zero m d s a h = ground arith
movsl_lem (suc n) m d s a h = ground (
  arith,
  movsl_lem n (move4 m d s) (d + 4) (s + 4) a,
  move4_lem m d s a,
  move4_lem m d s (s + 4 + (a - (d + 4))),
)

memcpy_aligned_lem :
    (n : ℕ) (m : Mem) (d s a : ℕ) → Apart d s n → memcpy_aligned n m d s a ≡ copied m d s n a
unfolding memcpy_aligned
memcpy_aligned_lem n m d s a h = ground (
  arith,
  memcpy_bottom_lem (n % 4) (movsl (n / 4) m d s) (d + 4 * (n / 4)) (s + 4 * (n / 4)) a,
  movsl_lem (n / 4) m d s a,
  movsl_lem (n / 4) m d s (s + 4 * (n / 4) + (a - (d + 4 * (n / 4)))),
)

memcpy_top_lem :
    (n : ℕ) (m : Mem) (d s a : ℕ) → Apart d s n → memcpy_top n m d s a ≡ copied m d s n a
unfolding memcpy_top
memcpy_top_lem zero m d s a h = ground arith
memcpy_top_lem (suc n) m d s a h = ground (
  arith,
  memcpy_aligned_lem (suc n) m d s a,
  memcpy_top_lem n (store m d (m s)) (d + 1) (s + 1) a,
)

-- Where source and destination do not meet, memcpy places the source bytes at the destination
-- and changes no other byte, whatever the alignment and the length.
pub memcpy_lem : (m : Mem) (d s n a : ℕ) → Apart d s n → memcpy m d s n a ≡ copied m d s n a
unfolding memcpy
memcpy_lem m d s n a h = memcpy_top_lem n m d s a h
