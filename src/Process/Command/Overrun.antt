-- ===== src/Process/Command/Overrun.antt =====
-- Which command lines execute of mp3/student-distrib/system_calls.c cannot take.
use ece_391_fall.Prelude.{
  ℕ, suc, ◌<◌, ◌≡◌, ◌⊎◌, inl, inr, refl, ap, ◌∙◌, sym, arith, Bool, Bool-cases, true, false, List,
  [], ◌∷◌, ◌++◌, ltb, ◌==◌, ==_iff, if◌then◌else◌, length,
}
use ece_391_fall.Process.Command.{
  Command, bad, overflow, command, skip_spaces, word, parse_command, IsWord, spaces,
}

-- The end of the line or a space.
abbrev pub EndsWord : List ℕ → Type 0
EndsWord [] = true ≡ true
EndsWord (c ∷ cs) = c ≡ b' '

-- The line is some spaces, the word and the rest, and the word ends there.
abbrev pub Begins : List ℕ → List ℕ → List ℕ → Type 0
Begins line w rest = (n : ℕ) × (line ≡ spaces n ++ (w ++ rest)) × IsWord w × EndsWord rest

-- A file name of 32 characters, or a shorter one with an argument of 128 or more.
abbrev pub Overruns : List ℕ → Type 0
Overruns line =
    (name : List ℕ) × (rest : List ℕ) × Begins line name rest
    × ((length name ≡ 32)
        ⊎ ((length name < 32)
            × ((arg : List ℕ) × (trailing : List ℕ) × Begins rest arg trailing
                × (127 < length arg))))

-- Nothing but spaces, or a file name of more than 32 characters.
abbrev pub Unusable : List ℕ → Type 0
Unusable line =
    (name : List ℕ) × (rest : List ℕ) × Begins line name rest
    × ((length (name ++ rest) ≡ 0) ⊎ (32 < length name))

skip_spaces-split : (cs : List ℕ) → (n : ℕ) × (cs ≡ spaces n ++ skip_spaces cs)
unfolding skip_spaces
skip_spaces-split [] = (0, refl)
skip_spaces-split (c ∷ cs) = elim (Bool-cases (c == b' ')) [
  | inl e ↦
      let (n, split) = skip_spaces-split cs in
      rw (e, skip_spaces)
        (suc n, ap (λ x. x ∷ cs) ((==_iff c b' ').0 e) ∙ ap (λ (l : List ℕ). b' ' ∷ l) split)
  | inr e ↦ rw (e, skip_spaces) (0, refl)
]

word-split :
    (cs : List ℕ) → (cs ≡ (word cs).0 ++ (word cs).1) × IsWord (word cs).0 × EndsWord (word cs).1
unfolding word
word-split [] = (refl, refl, refl)
word-split (c ∷ cs) = elim (Bool-cases (c == b' ')) [
  | inl e ↦ rw (e, word) (refl, refl, (==_iff c b' ').0 e)
  | inr e ↦
      let (split, plain, ends) = word-split cs in
      rw (e, word) (ap (λ (l : List ℕ). c ∷ l) split, (ground (arith, e), plain), ends)
]

Begins-word : (cs : List ℕ) → Begins cs (word (skip_spaces cs)).0 (word (skip_spaces cs)).1
Begins-word cs =
    let (n, first) = skip_spaces-split cs in
    let (second, plain, ends) = word-split (skip_spaces cs) in
    (n, first ∙ ap (λ (l : List ℕ). spaces n ++ l) second, plain, ends)

is_overflow : Command → Bool
is_overflow bad = false
is_overflow overflow = true
is_overflow (command filename args) = false

is_bad : Command → Bool
is_bad bad = true
is_bad overflow = false
is_bad (command filename args) = false

overflow_test :
    (empty long full wide : Bool) (filename args : List ℕ)
    → is_overflow (
        if empty
        then bad
        else if long
        then bad
        else if full
        then overflow
        else if wide
        then overflow
        else command filename args)
      ≡ true
    → (long ≡ false) × ((full ≡ true) ⊎ ((full ≡ false) × (wide ≡ true)))
unfolding is_overflow
overflow_test true long full wide filename args h = absurd (ground (arith, h))
overflow_test false true full wide filename args h = absurd (ground (arith, h))
overflow_test false false true wide filename args h = (refl, inl refl)
overflow_test false false false true filename args h = (refl, inr (refl, refl))
overflow_test false false false false filename args h = absurd (ground (arith, h))

bad_test :
    (empty long full wide : Bool) (filename args : List ℕ)
    → is_bad (
        if empty
        then bad
        else if long
        then bad
        else if full
        then overflow
        else if wide
        then overflow
        else command filename args)
      ≡ true
    → (empty ≡ true) ⊎ (long ≡ true)
unfolding is_bad
bad_test true long full wide filename args h = inl refl
bad_test false true full wide filename args h = inr refl
bad_test false false true wide filename args h = absurd (ground (arith, h))
bad_test false false false true filename args h = absurd (ground (arith, h))
bad_test false false false false filename args h = absurd (ground (arith, h))

-- The parsing runs over an array only for such a line.
pub parse_command-Overruns : (line : List ℕ) → parse_command line ≡ overflow → Overruns line
unfolding parse_command is_overflow
parse_command-Overruns line e =
    let name : List ℕ = (word (skip_spaces line)).0 in
    let rest : List ℕ = (word (skip_spaces line)).1 in
    let arg : List ℕ = (word (skip_spaces rest)).0 in
    let tests =
      overflow_test (length (skip_spaces line) == 0) (ltb 32 (length name)) (length name == 32)
        (ltb 127 (length arg)) name arg (ap is_overflow e) in
    (
      name,
      rest,
      Begins-word line,
      elim tests.1 [
        | inl full ↦ inl ((==_iff (length name) 32).0 full)
        | inr (short, wide) ↦ inr (
          ground (arith, tests.0, short),
          (arg, (word (skip_spaces rest)).1, Begins-word rest, ground (arith, wide)),
        )
      ],
    )

-- The parsing gives -1 only for such a line.
pub parse_command-Unusable : (line : List ℕ) → parse_command line ≡ bad → Unusable line
unfolding parse_command is_bad
parse_command-Unusable line e =
    let name : List ℕ = (word (skip_spaces line)).0 in
    let rest : List ℕ = (word (skip_spaces line)).1 in
    let arg : List ℕ = (word (skip_spaces rest)).0 in
    let (split, plain, ends) = word-split (skip_spaces line) in
    (
      name,
      rest,
      Begins-word line,
      elim (bad_test (length (skip_spaces line) == 0) (ltb 32 (length name)) (length name == 32)
          (ltb 127 (length arg)) name arg (ap is_bad e)) [
            | inl empty ↦ inl (
                sym (ap (λ (l : List ℕ). length l) split)
                ∙ (==_iff (length (skip_spaces line)) 0).0 empty)
            | inr long ↦ inr (ground (arith, long))
          ],
    )
