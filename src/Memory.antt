-- ===== src/Memory.antt =====
-- The memory routines of mp3/student-distrib/lib.c over a flat memory of bytes. Their inline
-- assembly is translated loop by loop; an address is a number, and no object reaches past the
-- end of the address space.
pub mod Copy
pub mod Move
pub mod Fill
use ece_391_fall.Prelude.{
  ℕ, zero, suc, ◌+◌, ◌-◌, ◌*◌, ◌/◌, ◌%◌, ◌≡◌, Bool, ltb, leb, ◌==◌, ◌&&◌, if◌then◌else◌,
}

abbrev pub Mem : Type 0
Mem = ℕ → ℕ

abbrev pub store : Mem → ℕ → ℕ → Mem
store m a v b = if a == b then v else m b

-- A uint32_t read from memory, low byte first.
abbrev pub load32 : Mem → ℕ → ℕ
load32 m a = m a + 256 * m (a + 1) + 65536 * m (a + 2) + 16777216 * m (a + 3)

-- One round of `movsl`: a double word is loaded, then stored.
pub move4 : Mem → ℕ → ℕ → Mem
move4 m d s =
    store (store (store (store m d (m s)) (d + 1) (m (s + 1))) (d + 2) (m (s + 2))) (d + 3)
      (m (s + 3))

-- `rep movsl`.
pub movsl : ℕ → Mem → ℕ → ℕ → Mem
unfolding move4
movsl zero m edi esi = m
movsl (suc ecx) m edi esi = movsl ecx (move4 m edi esi) (edi + 4) (esi + 4)

-- The loop at `.memcpy_bottom`.
pub memcpy_bottom : ℕ → Mem → ℕ → ℕ → Mem
memcpy_bottom zero m edi esi = m
memcpy_bottom (suc edx) m edi esi = memcpy_bottom edx (store m edi (m esi)) (edi + 1) (esi + 1)

-- `.memcpy_aligned`: `ecx / 4` double words, then `ecx % 4` bytes.
pub memcpy_aligned : ℕ → Mem → ℕ → ℕ → Mem
memcpy_aligned ecx m edi esi =
    memcpy_bottom (ecx % 4) (movsl (ecx / 4) m edi esi) (edi + 4 * (ecx / 4)) (esi + 4 * (ecx / 4))

-- The loop at `.memcpy_top`: bytes until the destination is aligned.
pub memcpy_top : ℕ → Mem → ℕ → ℕ → Mem
memcpy_top zero m edi esi = m
memcpy_top (suc ecx) m edi esi =
    let rest = memcpy_top ecx (store m edi (m esi)) (edi + 1) (esi + 1) in
    if edi % 4 == 0 then memcpy_aligned (suc ecx) m edi esi else rest

unfoldable pub memcpy : Mem → ℕ → ℕ → ℕ → Mem
unfolding memcpy_top memcpy_aligned memcpy_bottom movsl
memcpy m dest src n = memcpy_top n m dest src
