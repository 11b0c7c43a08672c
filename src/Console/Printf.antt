-- ===== src/Console/Printf.antt =====
-- printf of mp3/student-distrib/lib.c, over the characters of the format up to its NUL. An argument that
-- is missing or of the wrong kind, a format that ends inside a conversion, and a number too long for
-- its buffer are the fault `none`. `stack` is what the buffers hold before they are written.
pub mod Plain
pub mod Screens
use ece_391_fall.Prelude.{
  ℕ, zero, suc, ◌+◌, ◌-◌, ◌%◌, ◌^◌, ◌≤◌, ◌<◌, ◌≡◌, ◌≢◌, refl, sym, ap, ◌∙◌, arith, List, [], ◌∷◌,
  ◌++◌, Option, none, some, Bool, true, false, ◌&&◌, ◌||◌, Bool-cases, inl, inr, ltb, leb, ◌==◌,
  if◌then◌else◌, slt, sub32,
}
use ece_391_fall.Strings.Buffers.{itoa, string_length}
use ece_391_fall.Console.{Console, putc, puts}
use ece_391_fall.Console.Mapping.{TerminalIds, IsMapped, puts-IsMapped, putc-IsMapped}
use ece_391_fall.Console.Terminals.{putc-ids}

pub data Arg : Type 0 where
  word : ℕ → Arg
  text : List ℕ → Arg

-- The string at offset `i` of a buffer with `k` bytes left.
pub bytes_from : ℕ → (ℕ → ℕ) → ℕ → List ℕ
bytes_from zero s i = []
bytes_from (suc k) s i = let rest = bytes_from k s (i + 1) in if s i == 0 then [] else s i ∷ rest

-- `itoa` into a buffer of `n` bytes.
pub number : ℕ → (ℕ → ℕ) → ℕ → ℕ → Option (List ℕ)
unfolding bytes_from
number n stack value radix = elim (itoa n value stack radix) [
  | none ↦ none
  | some buf ↦ some (bytes_from n buf 0)
]

-- `%#x`: the digits go to `conv_buf[8]`, zeros before them, and the string starts at their length.
pub padded_hex : (ℕ → ℕ) → ℕ → Option (List ℕ)
unfolding bytes_from
padded_hex stack value = elim (itoa 56 value (λ i. stack (i + 8)) 16) [
  | none ↦ none
  | some digits ↦ elim (string_length 56 digits 0) [
    | none ↦ none
    | some len ↦
        let conv_buf : ℕ → ℕ =
          λ i. if leb len i && ltb i 8 then b'0' else if leb 8 i then digits (i - 8) else stack i in
        some (bytes_from (64 - len) conv_buf len)
  ]
]

-- `%d`: the minus sign, and the digits of `-value`.
pub signed : (ℕ → ℕ) → ℕ → Option (List ℕ)
unfolding number
signed stack value =
    if slt value 0
    then elim (number 35 (λ i. stack (i + 1)) (sub32 0 value) 10) [
      | none ↦ none
      | some ds ↦ some (b'-' ∷ ds)
    ]
    else number 36 stack value 10

-- Inside a conversion `spec` holds `alternate`; `args` are the arguments from `esp` on.
pub record Printing : Type 0 where
  pub spec : Option Bool
  pub args : List Arg
  pub console : Console

abbrev pub finish : List Arg → Console → Option Printing
finish args s = some (record { spec = none; args = args; console = s })

-- `puts(conv_buf)`, and the next argument.
abbrev pub show_string : List Arg → Console → Option (List ℕ) → Option Printing
show_string args s none = none
show_string args s (some cs) = finish args (puts cs 0 s).1

-- The conversions of a number.
pub convert_word : (ℕ → ℕ) → ℕ → Bool → ℕ → List Arg → Console → Option Printing
unfolding number padded_hex signed
convert_word stack c alternate v args s =
    if c == b'x'
    then show_string args s (if alternate then padded_hex stack v else number 64 stack v 16)
    else if c == b'u'
    then show_string args s (number 36 stack v 10)
    else if c == b'd'
    then show_string args s (signed stack v)
    else if c == b'c'
    then finish args (putc (v % 256) 0 s)
    else none

-- The conversions that take an argument.
abbrev pub convert : (ℕ → ℕ) → ℕ → Bool → Arg → List Arg → Console → Option Printing
convert stack c alternate (word v) args s = convert_word stack c alternate v args s
convert stack c alternate (text cs) args s =
    if c == b's' then show_string args s (some cs) else none

abbrev pub with_arg : (ℕ → ℕ) → ℕ → Bool → List Arg → Console → Option Printing
with_arg stack c alternate [] s = none
with_arg stack c alternate (a ∷ args) s = convert stack c alternate a args s

-- The inner switch for one character.
abbrev pub conversion : (ℕ → ℕ) → ℕ → Bool → List Arg → Console → Option Printing
conversion stack c alternate args s =
    if c == b'%'
    then finish args (putc b'%' 0 s)
    else if c == b'#'
    then some (record { spec = some true; args = args; console = s })
    else if c == b'x' || c == b'u' || c == b'd' || c == b'c' || c == b's'
    then with_arg stack c alternate args s
    else finish args s

-- One character, inside a conversion or not.
abbrev pub printf_char : (ℕ → ℕ) → ℕ → Option Bool → List Arg → Console → Option Printing
printf_char stack c (some alternate) args s = conversion stack c alternate args s
printf_char stack c none args s =
    if c == b'%'
    then some (record { spec = some false; args = args; console = s })
    else finish args (putc c 0 s)

pub printf_step : (ℕ → ℕ) → ℕ → Printing → Option Printing
unfolding convert_word
printf_step stack c p = printf_char stack c p.spec p.args p.console

pub printf_from : (ℕ → ℕ) → List ℕ → Printing → Option Console
unfolding printf_step
printf_from stack [] p = elim p.spec [ none ↦ some p.console | some alternate ↦ none ]
printf_from stack (c ∷ cs) p = elim (printf_step stack c p) [
  | none ↦ none
  | some p' ↦ printf_from stack cs p'
]

pub printf : (ℕ → ℕ) → List ℕ → List Arg → Console → Option Console
unfolding printf_from
printf stack format args s =
    printf_from stack format (record { spec = none; args = args; console = s })
