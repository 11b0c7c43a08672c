-- ===== src/Input/Typing.antt =====
-- What stands in the buffer of typed characters of mp2/input.c.
use ece_391_fall.Prelude.{
  ℕ, ◌+◌, ◌≤◌, ◌≡◌, arith, List, [], ◌∷◌, ◌++◌, length, Bool, true, false, Bool-cases, inl, inr,
  ltb, leb, ◌==◌, ◌||◌, ◌&&◌, if◌then◌else◌,
}
use ece_391_fall.Input.{
  Cmd, cmd_typed, Input, max_typed_len, valid_typing, without_last, typed_a_char, plain_char,
  next_char, read_chars, get_command, cmd_none, cmd_quit, arrow, page_key,
}

-- The characters and the NUL are inside `typing`.
abbrev pub Fits : List ℕ → Type 0
Fits typing = length typing ≤ max_typed_len

unfoldable Good : Cmd × Input → Type 0
Good r = Fits r.1.typing

Good-if : (b : Bool) (r t : Cmd × Input) → Good r → Good t → Good (if b then r else t)
Good-if true r t h h' = h
Good-if false r t h h' = h'

with_state :
    (cmd : Cmd) (s : Input) (state : ℕ) → Fits s.typing → Good (cmd, record s { state = state })
unfolding Good
with_state cmd s state h = h

with_typing :
    (cmd : Cmd) (s : Input) (typing : List ℕ)
    → Fits typing
    → Good (cmd, record s { typing = typing })
unfolding Good
with_typing cmd s typing h = h

length-without_last : (cs : List ℕ) → length (without_last cs) ≤ length cs
unfolding without_last
length-without_last [] = omega arith
length-without_last (c ∷ cs) = elim (Bool-cases (length cs == 0)) [
  | inl e ↦ rw e (omega arith)
  | inr e ↦ rw e (omega (arith, length-without_last cs))
]

length-append : (cs : List ℕ) (c : ℕ) → length (cs ++ (c ∷ [])) ≡ length cs + 1
length-append [] c = omega arith
length-append (d ∷ cs) c = omega (arith, length-append cs c)

typed_a_char-Fits : (c : ℕ) (typing : List ℕ) → Fits typing → Fits (typed_a_char c typing)
unfolding typed_a_char
typed_a_char-Fits c typing h = elim (Bool-cases (c == 8 || c == 127)) [
  | inl e ↦ rw e (omega (arith, length-without_last typing, h))
  | inr e ↦ elim (Bool-cases (ltb (length typing) max_typed_len)) [
    | inl f ↦ rw (e, f) (ground (arith, length-append typing c, f))
    | inr f ↦ rw (e, f) h
  ]
]

plain_char-Good :
    (ch : ℕ) (pushed : Cmd) (s : Input) → Fits s.typing → Good (plain_char ch pushed s)
unfolding plain_char
plain_char-Good ch pushed s h =
    Good-if (valid_typing ch) _ _
      (with_typing pushed s (typed_a_char ch s.typing) (typed_a_char-Fits ch s.typing h))
      (Good-if (ch == 10 || ch == 13) _ _ (with_typing cmd_typed s s.typing h)
        (with_typing pushed s s.typing h))

next_char-Good : (ch : ℕ) (pushed : Cmd) (s : Input) → Fits s.typing → Good (next_char ch pushed s)
unfolding next_char
next_char-Good ch pushed s h =
    let plain : Good (plain_char ch pushed (record s { state = 0 })) =
      plain_char-Good ch pushed (record s { state = 0 }) h in
    Good-if (s.state == 0) _ _
      (Good-if (ch == 27) _ _ (with_state pushed s 1 h) (plain_char-Good ch pushed s h))
      (Good-if (s.state == 1) _ _ (Good-if (ch == 91) _ _ (with_state pushed s 2 h) plain) (
        Good-if (s.state == 2) _ _
          (Good-if (leb b'A' ch && leb ch b'D') _ _ (with_state (arrow ch) s 0 h) (
            Good-if (ch == b'1' || ch == b'2' || ch == b'5') _ _ (with_state (page_key ch) s 3 h)
              plain))
          (Good-if (s.state == 3) _ _ (Good-if (ch == b'~') _ _ (with_state pushed s 0 h) plain)
            (with_typing pushed s s.typing h))))

Good-Fits : (r : Cmd × Input) → Good r → Fits r.1.typing
unfolding Good
Good-Fits r h = h

read_chars-Good :
    (chs : List ℕ) (pushed : Cmd) (s : Input) → Fits s.typing → Good (read_chars chs pushed s)
unfolding read_chars
read_chars-Good [] pushed s h = with_typing pushed s s.typing h
read_chars-Good (ch ∷ chs) pushed s h =
    let next = next_char ch pushed s in
    Good-if (ch == b'`') _ _ (with_typing cmd_quit s s.typing h)
      (read_chars-Good chs next.0 next.1 (Good-Fits next (next_char-Good ch pushed s h)))

-- Whatever is typed, arrow keys and deletions among it, and however much of it: the buffer never holds more than
-- MAX_TYPED_LEN characters.
pub get_command-Fits :
    (chs : List ℕ) (s : Input) → Fits s.typing → Fits ((get_command chs s).1).typing
unfolding get_command
get_command-Fits chs s h = Good-Fits _ (read_chars-Good chs cmd_none s h)
