-- ===== src/Tests/Buffers.antt =====
-- The theorems on strings in buffers, blocks of memory and formatted output.
use ece_391_fall.Prelude.{ℕ, suc, ◌+◌, ◌≤◌, ◌<◌, ◌≡◌, refl, arith, some, ltb, ◌==◌, if◌then◌else◌}
use ece_391_fall.Memory.Move.{memmove, memmove_lem}
use ece_391_fall.Memory.Fill.{memset, memset_lem}
use ece_391_fall.Strings.Buffers.{itoa}
use ece_391_fall.Strings.Buffers.Reverse.{HasLength}
use ece_391_fall.Strings.Buffers.Digits.{IsDigit, denotes, itoa-denotes}

-- The two ranges overlap, and the copy goes downwards.
memmove_lem_example : memmove (λ a. a) 102 100 5 104 ≡ 102
memmove_lem_example = memmove_lem (λ a. a) 102 100 5 104

memset_lem_example : memset (λ a. a) 1001 0x1FF 10 1006 ≡ 255
memset_lem_example = memset_lem (λ a. a) 1001 0x1FF 10 1006

itoa-denotes_example :
    (out : ℕ → ℕ) × (len : ℕ) × (itoa (suc 35) 48879 (λ i. 7) 16 ≡ some out)
    × (len ≤ 35)
    × (out len ≡ 0)
    × ((i : ℕ) → i < len → IsDigit 16 (out i))
    × (denotes 16 out len ≡ 48879)
itoa-denotes_example =
    itoa-denotes 35 48879 16 (λ i. 7) (omega arith) (omega arith) (omega arith) (omega arith)

-- The string "abc" and its NUL.
abbrev abc : ℕ → ℕ
abc i = if ltb i 3 then b'a' + i else if i == 3 then 0 else 7

abc_length : HasLength abc 3
abc_length = (refl, λ i h. ground (arith, h))
