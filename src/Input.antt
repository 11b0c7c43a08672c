-- ===== src/Input.antt =====
-- The commands that mp2/input.c reads from the keyboard and from the Tux controller. What is typed is the list of the
-- characters in `typing` before the NUL; `state` is the state of the machine for the arrow keys.
pub mod Typing
use ece_391_fall.Prelude.{
  ℕ, zero, suc, ◌+◌, ◌-◌, ◌*◌, ◌/◌, ◌%◌, ◌^◌, List, [], ◌∷◌, ◌++◌, length, Bool, ◌&&◌, ◌||◌, ltb,
  leb, ◌==◌, if◌then◌else◌, bit_and, bit_or,
}

pub data Cmd : Type 0 where
  cmd_none : Cmd
  cmd_right : Cmd
  cmd_left : Cmd
  cmd_up : Cmd
  cmd_down : Cmd
  cmd_move_left : Cmd
  cmd_enter : Cmd
  cmd_move_right : Cmd
  cmd_typed : Cmd
  cmd_quit : Cmd

abbrev pub max_typed_len : ℕ
max_typed_len = 20

pub record Input : Type 0 where
  pub typing : List ℕ
  pub state : ℕ

-- isalpha and isdigit of ASCII.
abbrev pub is_letter : ℕ → Bool
is_letter c = leb b'A' c && leb c b'Z' || leb b'a' c && leb c b'z'

abbrev pub is_decimal : ℕ → Bool
is_decimal c = leb b'0' c && leb c b'9'

unfoldable pub valid_typing : ℕ → Bool
valid_typing c = is_letter c || is_decimal c || c == b' ' || c == 8 || c == 127

-- `typing[len - 1] = 0`.
pub without_last : List ℕ → List ℕ
without_last [] = []
without_last (c ∷ cs) = let rest = without_last cs in if length cs == 0 then [] else c ∷ rest

unfoldable pub typed_a_char : ℕ → List ℕ → List ℕ
unfolding without_last
typed_a_char c typing =
    if c == 8 || c == 127
    then without_last typing
    else if ltb (length typing) max_typed_len
    then typing ++ (c ∷ [])
    else typing

abbrev pub reset_typed_command : Input → Input
reset_typed_command s = record s { typing = [] }

-- A character that is no part of an arrow key.
unfoldable pub plain_char : ℕ → Cmd → Input → Cmd × Input
unfolding typed_a_char
plain_char ch pushed s =
    if valid_typing ch
    then (pushed, record s { typing = typed_a_char ch s.typing })
    else if ch == 10 || ch == 13
    then (cmd_typed, s)
    else (pushed, s)

abbrev pub arrow : ℕ → Cmd
arrow ch =
    if ch == b'A'
    then cmd_up
    else if ch == b'B'
    then cmd_down
    else if ch == b'C'
    then cmd_right
    else cmd_left

abbrev pub page_key : ℕ → Cmd
page_key ch = if ch == b'2' then cmd_move_left else if ch == b'1' then cmd_enter else cmd_move_right

-- The switch over the state, for one character.
unfoldable pub next_char : ℕ → Cmd → Input → Cmd × Input
unfolding plain_char
next_char ch pushed s =
    if s.state == 0
    then if ch == 27 then (pushed, record s { state = 1 }) else plain_char ch pushed s
    else if s.state == 1
    then if ch == 91
      then (pushed, record s { state = 2 })
      else plain_char ch pushed (record s { state = 0 })
    else if s.state == 2
    then if leb b'A' ch && leb ch b'D'
      then (arrow ch, record s { state = 0 })
      else if ch == b'1' || ch == b'2' || ch == b'5'
      then (page_key ch, record s { state = 3 })
      else plain_char ch pushed (record s { state = 0 })
    else if s.state == 3
    then if ch == b'~'
      then (pushed, record s { state = 0 })
      else plain_char ch pushed (record s { state = 0 })
    else (pushed, s)

-- The loop of get_command over the characters up to the end of the input; the backquote leaves the rest unread.
pub read_chars : List ℕ → Cmd → Input → Cmd × Input
unfolding next_char
read_chars [] pushed s = (pushed, s)
read_chars (ch ∷ chs) pushed s =
    let next = next_char ch pushed s in
    let rest = read_chars chs next.0 next.1 in if ch == b'`' then (cmd_quit, s) else rest

pub get_command : List ℕ → Input → Cmd × Input
unfolding read_chars
get_command chs s = read_chars chs cmd_none s

pub is_cmd : Cmd → Cmd → Bool
is_cmd cmd_move_left cmd_move_left = Bool.true
is_cmd cmd_enter cmd_enter = Bool.true
is_cmd cmd_move_right cmd_move_right = Bool.true
is_cmd c d = Bool.false

-- The lower four buttons and the upper four of `arg`, and the command before. The new command of the
-- second test is compared with CMD_MOVE_LEFT, which it never is.
pub get_tux_command : ℕ → Cmd → Cmd
unfolding is_cmd
get_tux_command arg pre =
    let low : ℕ = bit_and arg 0x0F in
    let high : ℕ = bit_and arg 0xF0 in
    let pre1 = if low == 0x01 then cmd_none else pre in
    let cur2 =
      if low == 0x02
      then if is_cmd pre1 cmd_move_left then cmd_none else cmd_move_left
      else cmd_none in
    let pre2 = if low == 0x02 && is_cmd cur2 cmd_move_left then cur2 else pre1 in
    let cur4 =
      if low == 0x04 then if is_cmd pre2 cmd_enter then cmd_none else cmd_enter else cur2 in
    let pre4 = if low == 0x04 && is_cmd cur4 cmd_move_left then cur4 else pre2 in
    let cur8 =
      if low == 0x08
      then if is_cmd pre4 cmd_move_right then cmd_none else cmd_move_right
      else cur4 in
    let pre8 = if low == 0x08 && is_cmd cur8 cmd_move_right then cur8 else pre4 in
    if high == 0x10
    then cmd_up
    else if high == 0x20
    then cmd_down
    else if high == 0x40
    then cmd_left
    else if high == 0x80
    then cmd_right
    else pre8

-- The argument that display_time_on_tux hands to TUX_SET_LED, for a time that is not negative.
pub time_on_tux : ℕ → ℕ
time_on_tux num_seconds =
    let min1 : ℕ = num_seconds / 60 / 10 % 16 in
    let min2 : ℕ = num_seconds / 60 % 10 in
    let sec1 : ℕ = num_seconds % 60 / 10 in
    let sec2 : ℕ = num_seconds % 60 % 10 in
    let digits : ℕ = min1 * 2 ^ 12 + min2 * 2 ^ 8 + sec1 * 2 ^ 4 + sec2 in
    0x04000000 + (if min1 == 0 then 0x00070000 else 0x000F0000) + digits
