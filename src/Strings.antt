-- ===== src/Strings.antt =====
-- The string routines of mp3/student-distrib/lib.c. A string is the list of its bytes; every
-- byte past the end of the list reads as NUL. A pointer into a buffer is the function from an
-- offset to the byte there.
pub mod Compare
pub mod Buffers
use ece_391_fall.Prelude.{
  ℕ, zero, suc, ◌+◌, ◌-◌, ◌^◌, List, [], ◌∷◌, Bool, not, ◌||◌, get_or, sub32, ltb, ◌==◌,
  if◌then◌else◌,
}

-- The byte at an offset of a string.
abbrev pub chars : List ℕ → ℕ → ℕ
chars s i = get_or s i 0

-- `while (s[len] != '\0') len++`.
unfoldable pub strlen : List ℕ → ℕ
strlen [] = 0
strlen (c ∷ s) = if c == 0 then 0 else suc (strlen s)

-- An int8_t promoted to int32_t.
abbrev pub sext8 : ℕ → ℕ
sext8 c = if ltb c 128 then c else c + 2 ^ 32 - 256

-- The loop of strncmp from index `i` with `k` rounds left.
pub strncmp_from : ℕ → (ℕ → ℕ) → (ℕ → ℕ) → ℕ → ℕ
strncmp_from zero s1 s2 i = 0
strncmp_from (suc k) s1 s2 i =
    let rest = strncmp_from k s1 s2 (i + 1) in
    if not (s1 i == s2 i) || s1 i == 0 then sub32 (sext8 (s1 i)) (sext8 (s2 i)) else rest

unfoldable pub strncmp : (ℕ → ℕ) → (ℕ → ℕ) → ℕ → ℕ
unfolding strncmp_from
strncmp s1 s2 n = strncmp_from n s1 s2 0
