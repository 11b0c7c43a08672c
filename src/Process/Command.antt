-- ===== src/Process/Command.antt =====
-- The command line of execute in mp3/student-distrib/system_calls.c: the file name, which has an array of
-- 32 bytes, and the one argument, which has 128. A command is its characters up to the NUL.
pub mod Overrun
use ece_391_fall.Prelude.{
  ℕ, zero, suc, ◌<◌, ◌≡◌, ◌≢◌, refl, arith, true, false, List, [], ◌∷◌, ◌++◌, ltb, ◌==◌,
  if◌then◌else◌, length,
}

-- What the parsing comes to: -1, a store outside an array, or the two strings.
pub data Command : Type 0 where
  bad : Command
  overflow : Command
  command : List ℕ → List ℕ → Command

-- The loops that skip spaces.
unfoldable pub skip_spaces : List ℕ → List ℕ
skip_spaces [] = []
skip_spaces (c ∷ cs) = let rest = skip_spaces cs in if c == b' ' then rest else c ∷ cs

-- The characters up to a space or the end, and what follows them.
unfoldable pub word : List ℕ → List ℕ × List ℕ
word [] = ([], [])
word (c ∷ cs) = let (w, rest) = word cs in if c == b' ' then ([], c ∷ cs) else (c ∷ w, rest)

-- A file name of 33 characters gives -1; one of 32 has its NUL stored at `filename[32]`. An argument of 128
-- has its NUL at `args[128]`.
pub parse_command : List ℕ → Command
unfolding skip_spaces word
parse_command line =
    let start = skip_spaces line in
    let (filename, rest) = word start in
    let (args, trailing) = word (skip_spaces rest) in
    if length start == 0
    then bad
    else if ltb 32 (length filename)
    then bad
    else if length filename == 32
    then overflow
    else if ltb 127 (length args)
    then overflow
    else command filename args

-- No space among the characters.
abbrev pub IsWord : List ℕ → Type 0
IsWord [] = true ≡ true
IsWord (c ∷ cs) = (c ≢ b' ') × IsWord cs

abbrev pub spaces : ℕ → List ℕ
spaces zero = []
spaces (suc n) = b' ' ∷ spaces n

not_space : (c : ℕ) → c ≢ b' ' → (c == b' ') ≡ false
not_space c h = ground (arith, h)

skip_spaces-word :
    (n : ℕ) (c : ℕ) (cs : List ℕ) → c ≢ b' ' → skip_spaces (spaces n ++ (c ∷ cs)) ≡ c ∷ cs
unfolding skip_spaces
skip_spaces-word zero c cs h = rw (not_space c h) refl
skip_spaces-word (suc n) c cs h = skip_spaces-word n c cs h

skip_spaces-all : (n : ℕ) → skip_spaces (spaces n) ≡ []
unfolding skip_spaces
skip_spaces-all zero = refl
skip_spaces-all (suc n) = skip_spaces-all n

word-space :
    (w : List ℕ) (n : ℕ) (cs : List ℕ)
    → IsWord w
    → word (w ++ (spaces (suc n) ++ cs)) ≡ (w, spaces (suc n) ++ cs)
unfolding word
word-space [] n cs h = refl
word-space (c ∷ w) n cs h = rw (not_space c h.0, word-space w n cs h.1) refl

word-end : (w : List ℕ) → IsWord w → word w ≡ (w, [])
unfolding word
word-end [] h = refl
word-end (c ∷ w) h = rw (not_space c h.0, word-end w h.1) refl

-- A command line of any spaces, a file name of 1 to 31 characters, at least one space and an argument of 1 to
-- 127 characters gives the file name and the argument.
pub parse_command_lem :
    (n k : ℕ) (c : ℕ) (name : List ℕ) (a : ℕ) (arg : List ℕ)
    → IsWord (c ∷ name)
    → IsWord (a ∷ arg)
    → length (c ∷ name) < 32
    → length (a ∷ arg) < 128
    → parse_command (spaces n ++ ((c ∷ name) ++ (spaces (suc k) ++ (a ∷ arg))))
      ≡ command (c ∷ name) (a ∷ arg)
unfolding parse_command
parse_command_lem n k c name a arg hn ha short_name short_arg =
    rw
      (
        skip_spaces-word n c (name ++ (spaces (suc k) ++ (a ∷ arg))) hn.0,
        word-space (c ∷ name) k (a ∷ arg) hn,
        skip_spaces-word (suc k) a arg ha.0,
        word-end (a ∷ arg) ha,
        parse_command,
      )
      (ground (arith, short_name, short_arg))
