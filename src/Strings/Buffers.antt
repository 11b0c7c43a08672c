-- ===== src/Strings/Buffers.antt =====
-- The routines of mp3/student-distrib/lib.c that write strings into buffers: strrev, itoa, strcpy and
-- strncpy. A buffer is the function from an offset to the byte there; `n` is the number of
-- bytes that it has, and a scan or a store behind them is `none`.
pub mod Reverse
pub mod Digits
pub mod Copies
use Prim.Native.Char.{code}
use Prim.Native.String.{String}
use ece_391_fall.Prelude.{
  ℕ, zero, suc, ◌+◌, ◌-◌, ◌*◌, ◌/◌, ◌%◌, List, [], ◌∷◌, Option, none, some, Bool, ◌&&◌, not, get_or,
  ltb, ◌==◌, if◌then◌else◌, update,
}

-- The bytes of a literal.
abbrev pub codes : String → List ℕ
codes String.[] = []
codes (String.◌∷◌ c s) = code c ∷ codes s

-- strlen of the string at offset `i` of a buffer with `k` bytes left.
pub string_length : ℕ → (ℕ → ℕ) → ℕ → Option ℕ
string_length zero s i = none
string_length (suc k) s i =
    let rest = string_length k s (i + 1) in if s i == 0 then some i else rest

-- The exchanges of strrev between `beg` and `end`; `k` rounds are enough.
pub swap_from : ℕ → (ℕ → ℕ) → ℕ → ℕ → ℕ → ℕ
swap_from zero s beg end = s
swap_from (suc k) s beg end =
    let rest = swap_from k (update (update s end (s beg)) beg (s end)) (beg + 1) (end - 1) in
    if ltb beg end then rest else s

-- `end` starts at -1 for the empty string, where no round is made either.
pub strrev : ℕ → (ℕ → ℕ) → Option (ℕ → ℕ)
unfolding string_length swap_from
strrev n s = elim (string_length n s 0) [
  | none ↦ none
  | some len ↦ some (swap_from len s 0 (len - 1))
]

-- `lookup`.
abbrev pub lookup : ℕ → ℕ
lookup i = get_or (codes "0123456789ABCDEFGHIJKLMNOPQRSTUVWXYZ") i 0

-- The loop that writes the digits from the lowest on, and the NUL; `k` bytes are left.
pub put_digits : ℕ → ℕ → ℕ → (ℕ → ℕ) → ℕ → Option (ℕ → ℕ)
put_digits zero radix newval buf pos = none
put_digits (suc k) radix newval buf pos =
    let rest =
      put_digits k radix (newval / radix) (update buf pos (lookup (newval % radix))) (pos + 1) in
    if newval == 0 then some (update buf pos 0) else rest

pub itoa : ℕ → ℕ → (ℕ → ℕ) → ℕ → Option (ℕ → ℕ)
unfolding put_digits strrev
itoa n value buf radix =
    if value == 0
    then if ltb n 2 then none else some (update (update buf 0 b'0') 1 0)
    else elim (put_digits n radix value buf 0) [ none ↦ none | some out ↦ strrev n out ]

-- The loop of strcpy from offset `i`, over the `k` bytes that the source has left.
pub copy_string : ℕ → (ℕ → ℕ) → (ℕ → ℕ) → ℕ → Option (ℕ → ℕ)
copy_string zero dest src i = none
copy_string (suc k) dest src i =
    let rest = copy_string k (update dest i (src i)) src (i + 1) in
    if src i == 0 then some (update dest i 0) else rest

pub strcpy : ℕ → (ℕ → ℕ) → (ℕ → ℕ) → Option (ℕ → ℕ)
unfolding copy_string
strcpy n dest src = copy_string n dest src 0

-- The two loops of strncpy: `k` bytes are left, and `ended` says that the NUL has been met.
pub copy_padded : ℕ → Bool → (ℕ → ℕ) → (ℕ → ℕ) → ℕ → ℕ → ℕ
copy_padded zero ended dest src i = dest
copy_padded (suc k) Bool.true dest src i = copy_padded k Bool.true (update dest i 0) src (i + 1)
copy_padded (suc k) Bool.false dest src i =
    let rest = copy_padded k Bool.false (update dest i (src i)) src (i + 1) in
    let padded = copy_padded k Bool.true (update dest i 0) src (i + 1) in
    if src i == 0 then padded else rest

pub strncpy : (ℕ → ℕ) → (ℕ → ℕ) → ℕ → ℕ → ℕ
unfolding copy_padded
strncpy dest src n = copy_padded n Bool.false dest src 0
