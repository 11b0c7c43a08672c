-- ===== src/Keyboard/Buffer.antt =====
-- The keyboard buffer: when a key fits into it, and when the store runs past its end.
use ece_391_fall.Prelude.{
  ℕ, ◌+◌, ◌<◌, ◌≤◌, ◌≡◌, ◌⊎◌, inl, inr, refl, arith, Bool, Bool-cases, true, false, not, ◌&&◌,
  Option, none, some, ltb, leb, ◌==◌, if◌then◌else◌, update, lt→ltb, le→ltb,
}
use ece_391_fall.Console.{
  Console, Terminal, set_terminal, putc, clear, update_cursor, memory_switch,
}
use ece_391_fall.Console.Terminals.{SameLines, putc-SameLines, putc-ids, clear-SameLines}
use ece_391_fall.Keyboard.{
  Keyboard, shown, with_console, modifier, switch_terminal, press_backspace, store_key, type_key,
  press_enter, modified_key, plain_key, character_key, other_key, acknowledge, or_else,
  keyboard_handler, shift_capital_echo,
}
use ece_391_fall.Keyboard.Tables.{scan_code_match, scan_code_shift, scan_code_capital}

-- The terminal after a character has gone into its buffer.
abbrev pub stored : ℕ → Terminal → Terminal
stored c t = record t { keyboard_buffer = update t.keyboard_buffer t.index c; index = t.index + 1 }

-- A key fits while the index is inside the buffer, and is a fault when it is not.
pub store_key_lem :
    (c : ℕ) (s : Console)
    → let t = s.terminal s.cur_terminal in
      (t.index < 128 → store_key c s ≡ some (set_terminal s.cur_terminal (stored c t) s))
      × (128 ≤ t.index → store_key c s ≡ none)
unfolding store_key
store_key_lem c s = (λ h. rw (lt→ltb _ _ h, store_key), λ h. rw (le→ltb _ _ h, store_key))

-- Each terminal has room for one more key.
abbrev pub HasRoom : Console → Type 0
HasRoom s = (t : ℕ) → (s.terminal t).index ≤ 127

-- After a key: only the enter key takes the last place.
abbrev pub HasEnterRoom : Console → Type 0
HasEnterRoom s =
    (t : ℕ)
    → ((s.terminal t).index ≤ 127)
      ⊎ (((s.terminal t).index ≡ 128) × ((s.terminal t).enter_pressed ≡ 1))

-- A key that was no fault.
unfoldable pub Safe : Option Keyboard → Type 0
Safe none = ⊥
Safe (some k) = HasEnterRoom k.console

HasRoom-SameLines : (s s' : Console) → SameLines s s' → HasRoom s → HasRoom s'
HasRoom-SameLines s s' h r t = omega (arith, r t, (h t).1)

HasRoom-enter : (s : Console) → HasRoom s → HasEnterRoom s
HasRoom-enter s r t = inl (r t)

type_key-Safe :
    (echo c : ℕ) (k : Keyboard)
    → HasRoom k.console
    → (shown k).index < 127
    → Safe (type_key echo c k)
unfolding type_key Safe
type_key-Safe echo c k r h =
    let s = putc echo 1 k.console in
    let room = HasRoom-SameLines k.console s (putc-SameLines echo 1 k.console) r in
    let at : (s.terminal s.cur_terminal).index < 127 =
      rw (putc-ids echo 1 k.console).0
        (omega (arith, (putc-SameLines echo 1 k.console k.console.cur_terminal).1)) in
    rw ((store_key_lem c s).0 (omega arith)) (λ t. ground (arith, room t, at))

press_enter-Safe : (c : ℕ) (k : Keyboard) → HasRoom k.console → Safe (press_enter c k)
unfolding press_enter Safe
press_enter-Safe c k r =
    let s = putc c 1 k.console in
    let room = HasRoom-SameLines k.console s (putc-SameLines c 1 k.console) r in
    rw ((store_key_lem b'\n' s).0 (omega (arith, room s.cur_terminal)))
      (λ t. ground (arith, room t, room s.cur_terminal))

modified_key-Safe :
    (scan_code echo : ℕ) (k : Keyboard) → HasRoom k.console → Safe (modified_key scan_code echo k)
unfolding modified_key Safe
modified_key-Safe scan_code echo k r =
    let c = scan_code_match scan_code in
    elim (Bool-cases (leb 127 (shown k).index && not (c == b'\n'))) [
      | inl full ↦ rw (full, modified_key) (HasRoom-enter k.console r)
      | inr fits ↦
          rw (fits, modified_key)
            (elim (Bool-cases (c == b'\n')) [
              | inl e ↦ rw e (press_enter-Safe c k r)
              | inr e ↦ rw e (type_key-Safe echo c k r (ground arith))
            ])
    ]

plain_key-Safe : (scan_code : ℕ) (k : Keyboard) → HasRoom k.console → Safe (plain_key scan_code k)
unfolding plain_key Safe
plain_key-Safe scan_code k r =
    let c = scan_code_match scan_code in
    elim (Bool-cases (c == b'\n')) [
      | inl e ↦ rw (e, plain_key) (press_enter-Safe c k r)
      | inr e ↦
          rw (e, plain_key)
            (elim (Bool-cases (not (c == 0) && ltb (shown k).index 127)) [
              | inl f ↦ rw f (type_key-Safe c c k r (ground arith))
              | inr f ↦ rw f (HasRoom-enter k.console r)
            ])
    ]

room-Safe : (k : Keyboard) → HasRoom k.console → Safe (some k)
unfolding Safe
room-Safe k r t = inl (r t)

-- A choice by a test is safe if both sides are.
Safe-if : (b : Bool) (x y : Option Keyboard) → Safe x → Safe y → Safe (if b then x else y)
Safe-if true x y h h' = h
Safe-if false x y h h' = h'

character_key-Safe :
    (scan_code : ℕ) (k : Keyboard) → HasRoom k.console → Safe (character_key scan_code k)
unfolding character_key
character_key-Safe scan_code k r =
    Safe-if _ _ _
      (room-Safe (with_console (clear k.console) k)
        (HasRoom-SameLines k.console (clear k.console) (clear-SameLines k.console) r))
      (Safe-if _ _ _ (modified_key-Safe scan_code (shift_capital_echo scan_code) k r) (
        Safe-if _ _ _ (modified_key-Safe scan_code (scan_code_shift scan_code) k r) (
          Safe-if _ _ _ (modified_key-Safe scan_code (scan_code_capital scan_code) k r)
            (plain_key-Safe scan_code k r))))

switch_terminal-terminals : (id : ℕ) (s : Console) → (switch_terminal id s).terminal ≡ s.terminal
unfolding switch_terminal update_cursor memory_switch
switch_terminal-terminals id s = elim (Bool-cases (s.cur_terminal == id)) [
  | inl e ↦ rw (e, switch_terminal)
  | inr e ↦ rw (e, switch_terminal)
]

switch_terminal-Safe :
    (id : ℕ) (k : Keyboard)
    → HasRoom k.console
    → Safe (some (with_console (switch_terminal id k.console) k))
unfolding Safe
switch_terminal-Safe id k r t = rw (switch_terminal-terminals id k.console) (inl (r t))

press_backspace-Safe : (k : Keyboard) → HasRoom k.console → Safe (some (press_backspace k))
unfolding press_backspace Safe
press_backspace-Safe k r = elim (Bool-cases ((shown k).index == 0)) [
  | inl e ↦ rw (e, press_backspace) (HasRoom-enter k.console r)
  | inr e ↦
      let s = putc 8 1 k.console in
      let room = HasRoom-SameLines k.console s (putc-SameLines 8 1 k.console) r in
      rw (e, press_backspace) (λ t. ground (arith, room t, room s.cur_terminal))
]

other_key-Safe : (scan_code : ℕ) (k : Keyboard) → HasRoom k.console → Safe (other_key scan_code k)
unfolding other_key
other_key-Safe scan_code k r = Safe-if _ _ _ (switch_terminal-Safe 0 k r) (
    Safe-if _ _ _ (switch_terminal-Safe 1 k r) (
      Safe-if _ _ _ (switch_terminal-Safe 2 k r) (
        Safe-if _ _ _ (press_backspace-Safe k r) (
          Safe-if _ _ _ (room-Safe k r)
            (Safe-if _ _ _ (character_key-Safe scan_code k r) (room-Safe k r))))))

-- A key that changes flags only.
unfoldable Keeps : Console → Option Keyboard → Type 0
Keeps s none = true ≡ true
Keeps s (some k) = k.console ≡ s

Keeps-if :
    (s : Console) (b : Bool) (x y : Option Keyboard)
    → Keeps s x
    → Keeps s y
    → Keeps s (if b then x else y)
Keeps-if s true x y h h' = h
Keeps-if s false x y h h' = h'

Keeps-some : (s : Console) (k : Keyboard) → k.console ≡ s → Keeps s (some k)
unfolding Keeps
Keeps-some s k h = h

Keeps-either :
    (s : Console) (b : Bool) (x y : Keyboard)
    → x.console ≡ s
    → y.console ≡ s
    → Keeps s (some (if b then x else y))
unfolding Keeps
Keeps-either s true x y h h' = h
Keeps-either s false x y h h' = h'

Keeps-none : (s : Console) → Keeps s none
unfolding Keeps
Keeps-none s = refl

modifier-Keeps : (scan_code : ℕ) (k : Keyboard) → Keeps k.console (modifier scan_code k)
unfolding modifier
modifier-Keeps scan_code k =
    let s = k.console in
    Keeps-if s _ _ _ (Keeps-some s (record k { shift_pressed = 1 }) refl) (
      Keeps-if s _ _ _ (Keeps-some s (record k { shift_pressed = 0 }) refl) (
        Keeps-if s _ _ _ (Keeps-some s (record k { ctrl_pressed = 1 }) refl) (
          Keeps-if s _ _ _ (Keeps-some s (record k { ctrl_pressed = 0 }) refl) (
            Keeps-if s _ _ _ (Keeps-either s (k.caps_lock_pressed == 0) _ k refl refl) (
              Keeps-if s _ _ _ (Keeps-some s (record k { caps_lock_pressed = 0 }) refl) (
                Keeps-if s _ _ _ (Keeps-some s (record k { alt_pressed = 1 }) refl) (
                  Keeps-if s _ _ _ (Keeps-some s (record k { alt_pressed = 0 }) refl)
                    (Keeps-none s))))))))

or_else-Safe :
    (o o' : Option Keyboard) (s : Console) → Keeps s o → HasRoom s → Safe o' → Safe (or_else o o')
unfolding Safe Keeps
or_else-Safe none o' s h r safe = safe
or_else-Safe (some k) o' s h r safe = rw h (HasRoom-enter s r)

-- Whatever scan code arrives while every terminal has room for a key, the handler stores nothing
-- outside a keyboard buffer, and after it a terminal's buffer is full only if enter is pressed there.
pub keyboard_handler-Safe :
    (scan_code : ℕ) (k : Keyboard) → HasRoom k.console → Safe (keyboard_handler scan_code k)
unfolding keyboard_handler
keyboard_handler-Safe scan_code k r =
    let k' = acknowledge k in
    or_else-Safe (modifier scan_code k') (other_key scan_code k') k'.console
      (modifier-Keeps scan_code k') r (other_key-Safe scan_code k' r)

-- The enter key has no test of the index: in a full buffer, with no shift, control or capital mode
-- on, its store runs past the end.
pub enter-fault :
    (k : Keyboard)
    → 128 ≤ (shown k).index
    → k.shift_pressed ≡ 0
    → k.capital ≡ 0
    → k.ctrl_pressed ≡ 0
    → keyboard_handler 0x1C k ≡ none
unfolding keyboard_handler modifier other_key character_key plain_key press_enter scan_code_match
enter-fault k full no_shift no_capital no_ctrl =
    let k' = acknowledge k in
    let s = putc b'\n' 1 k'.console in
    let at : 128 ≤ (s.terminal s.cur_terminal).index =
      rw (putc-ids b'\n' 1 k'.console).0
        (omega (arith, (putc-SameLines b'\n' 1 k'.console k'.console.cur_terminal).1)) in
    rw (no_ctrl, no_shift, no_capital, (store_key_lem b'\n' s).1 at, keyboard_handler) refl
