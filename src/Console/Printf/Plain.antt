-- ===== src/Console/Printf/Plain.antt =====
-- printf of a text without conversions.
use ece_391_fall.Prelude.{
  ℕ, ◌+◌, ◌≡◌, refl, arith, List, [], ◌∷◌, none, some, Bool, true, false, not, ◌&&◌, ◌==◌,
}
use ece_391_fall.Console.{Console, putc, puts}
use ece_391_fall.Console.Printf.{Arg, printf_step, printf_from, printf}

-- No character is a `%` or the NUL.
unfoldable pub is_plain : List ℕ → Bool
is_plain [] = true
is_plain (c ∷ cs) = not (c == b'%') && not (c == 0) && is_plain cs

module _ (stack : ℕ → ℕ) (args : List Arg) where
  first_plain :
      (c : ℕ) (b : Bool)
      → (not (c == b'%') && not (c == 0) && b) ≡ true
      → ((c == b'%') ≡ false) × ((c == 0) ≡ false) × (b ≡ true)
  first_plain c b h = (ground (arith, h), ground (arith, h), ground (arith, h))

  printf_from-puts :
      (cs : List ℕ) (i : ℕ) (s : Console)
      → is_plain cs ≡ true
      → printf_from stack cs (record { spec = none; args = args; console = s })
        ≡ some (puts cs i s).1
  unfolding is_plain printf_from printf_step puts
  printf_from-puts [] i s h = refl
  printf_from-puts (c ∷ cs) i s h =
      let (no_percent, no_nul, rest) = first_plain c (is_plain cs) h in
      rw (no_percent, no_nul, printf_from, puts) (printf_from-puts cs (i + 1) (putc c 0 s) rest)

-- printf of a text without a `%` is no fault, needs no argument, and does what puts does.
pub printf-puts :
    (stack : ℕ → ℕ) (format : List ℕ) (args : List Arg) (s : Console)
    → is_plain format ≡ true
    → printf stack format args s ≡ some (puts format 0 s).1
unfolding printf
printf-puts stack format args s h = printf_from-puts stack args format 0 s h
