-- ===== src/Console/Printf/Screens.antt =====
-- printf and the screen of the running terminal.
use ece_391_fall.Prelude.{
  ℕ, ◌+◌, ◌%◌, ◌≡◌, refl, arith, List, [], ◌∷◌, Option, none, some, Bool, true, false, Bool-cases,
  inl, inr, ◌==◌, if◌then◌else◌,
}
use ece_391_fall.Console.{Console, putc, puts}
use ece_391_fall.Console.Mapping.{TerminalIds, IsMapped, putc-IsMapped}
use ece_391_fall.Console.Terminals.{putc-ids}
use ece_391_fall.Console.Printf.{
  Arg, word, text, number, padded_hex, signed, Printing, finish, show_string, convert_word, convert,
  with_arg, conversion, printf_char, printf_step, printf_from, printf,
}

-- The video page has the running terminal's screen.
unfoldable pub IsGood : Console → Type 0
IsGood s = TerminalIds s × IsMapped s

putc-IsGood : (c : ℕ) (s : Console) → IsGood s → IsGood (putc c 0 s)
unfolding IsGood
putc-IsGood c s (ids, mapped) =
    (ground (arith, ids, putc-ids c 0 s), putc-IsMapped c 0 s ids mapped (λ h. cc h.1))

puts-IsGood : (cs : List ℕ) (i : ℕ) (s : Console) → IsGood s → IsGood (puts cs i s).1
unfolding puts
puts-IsGood [] i s good = good
puts-IsGood (c ∷ cs) i s good = elim (Bool-cases (c == 0)) [
  | inl e ↦ rw (e, puts) good
  | inr e ↦ rw (e, puts) (puts-IsGood cs (i + 1) (putc c 0 s) (putc-IsGood c s good))
]

-- A step that was a fault, or left the mapping good.
unfoldable StepGood : Option Printing → Type 0
StepGood none = true ≡ true
StepGood (some p) = IsGood p.console

StepGood-if :
    (b : Bool) (x y : Option Printing) → StepGood x → StepGood y → StepGood (if b then x else y)
StepGood-if true x y h h' = h
StepGood-if false x y h h' = h'

fault-StepGood : StepGood none
unfolding StepGood
fault-StepGood = refl

spec-StepGood :
    (spec : Option Bool) (args : List Arg) (s : Console)
    → IsGood s
    → StepGood (some (record { spec = spec; args = args; console = s }))
unfolding StepGood
spec-StepGood spec args s good = good

finish-StepGood : (args : List Arg) (s : Console) → IsGood s → StepGood (finish args s)
unfolding StepGood
finish-StepGood args s good = good

show_string-StepGood :
    (args : List Arg) (s : Console) (o : Option (List ℕ))
    → IsGood s
    → StepGood (show_string args s o)
show_string-StepGood args s none good = fault-StepGood
show_string-StepGood args s (some cs) good =
    finish-StepGood args (puts cs 0 s).1 (puts-IsGood cs 0 s good)

module _ (stack : ℕ → ℕ) where
  convert_word-StepGood :
      (c : ℕ) (alternate : Bool) (v : ℕ) (args : List Arg) (s : Console)
      → IsGood s
      → StepGood (convert_word stack c alternate v args s)
  unfolding convert_word
  convert_word-StepGood c alternate v args s good =
      StepGood-if (c == b'x')
        (show_string args s (if alternate then padded_hex stack v else number 64 stack v 16)) _
        (show_string-StepGood args s
          (if alternate then padded_hex stack v else number 64 stack v 16) good)
        (StepGood-if (c == b'u') (show_string args s (number 36 stack v 10)) _
          (show_string-StepGood args s (number 36 stack v 10) good)
          (StepGood-if (c == b'd') (show_string args s (signed stack v)) _
            (show_string-StepGood args s (signed stack v) good)
            (StepGood-if (c == b'c') (finish args (putc (v % 256) 0 s)) none
              (finish-StepGood args (putc (v % 256) 0 s) (putc-IsGood (v % 256) s good))
              fault-StepGood)))

  convert-StepGood :
      (c : ℕ) (alternate : Bool) (a : Arg) (args : List Arg) (s : Console)
      → IsGood s
      → StepGood (convert stack c alternate a args s)
  convert-StepGood c alternate (word v) args s good =
      convert_word-StepGood c alternate v args s good
  convert-StepGood c alternate (text cs) args s good =
      StepGood-if (c == b's') (show_string args s (some cs)) none
        (show_string-StepGood args s (some cs) good) fault-StepGood

  with_arg-StepGood :
      (c : ℕ) (alternate : Bool) (args : List Arg) (s : Console)
      → IsGood s
      → StepGood (with_arg stack c alternate args s)
  with_arg-StepGood c alternate [] s good = fault-StepGood
  with_arg-StepGood c alternate (a ∷ args) s good = convert-StepGood c alternate a args s good

  conversion-StepGood :
      (c : ℕ) (alternate : Bool) (args : List Arg) (s : Console)
      → IsGood s
      → StepGood (conversion stack c alternate args s)
  conversion-StepGood c alternate args s good =
      StepGood-if _ _ _ (finish-StepGood args _ (putc-IsGood b'%' s good)) (
        StepGood-if _ _ _ (spec-StepGood (some true) args s good) (
          StepGood-if _ _ _ (with_arg-StepGood c alternate args s good)
            (finish-StepGood args s good)))

  printf_char-StepGood :
      (c : ℕ) (spec : Option Bool) (args : List Arg) (s : Console)
      → IsGood s
      → StepGood (printf_char stack c spec args s)
  printf_char-StepGood c (some alternate) args s good = conversion-StepGood c alternate args s good
  printf_char-StepGood c none args s good =
      StepGood-if (c == b'%') (some (record { spec = some false; args = args; console = s }))
        (finish args (putc c 0 s)) (spec-StepGood (some false) args s good)
        (finish-StepGood args (putc c 0 s) (putc-IsGood c s good))

-- A printf that is no fault.
unfoldable pub PrintedGood : Option Console → Type 0
PrintedGood none = true ≡ true
PrintedGood (some s) = IsGood s

module _ (stack : ℕ → ℕ) where
  ended-PrintedGood :
      (spec : Option Bool) (s : Console)
      → IsGood s
      → PrintedGood (elim spec [ none ↦ some s | some alternate ↦ none ])
  unfolding PrintedGood
  ended-PrintedGood none s good = good
  ended-PrintedGood (some alternate) s good = refl

  next-PrintedGood :
      (cs : List ℕ) (o : Option Printing)
      → ((p : Printing) → IsGood p.console → PrintedGood (printf_from stack cs p))
      → StepGood o
      → PrintedGood (elim o [ none ↦ none | some p ↦ printf_from stack cs p ])
  unfolding PrintedGood StepGood
  next-PrintedGood cs none rest good = refl
  next-PrintedGood cs (some p) rest good = rest p good

  printf_from-PrintedGood :
      (cs : List ℕ) (p : Printing) → IsGood p.console → PrintedGood (printf_from stack cs p)
  unfolding printf_from printf_step
  printf_from-PrintedGood [] p good = ended-PrintedGood p.spec p.console good
  printf_from-PrintedGood (c ∷ cs) p good =
      next-PrintedGood cs (printf_char stack c p.spec p.args p.console) (printf_from-PrintedGood cs)
        (printf_char-StepGood stack c p.spec p.args p.console good)

-- Whatever the format and the arguments, a printf that is no fault leaves the running terminal's screen behind
-- the video page, if it was there before.
pub printf-IsGood :
    (stack : ℕ → ℕ) (format : List ℕ) (args : List Arg) (s : Console)
    → IsGood s
    → PrintedGood (printf stack format args s)
unfolding printf
printf-IsGood stack format args s good =
    printf_from-PrintedGood stack format (record { spec = none; args = args; console = s }) good
