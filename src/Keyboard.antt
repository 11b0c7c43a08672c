-- ===== src/Keyboard.antt =====
-- The keyboard driver of mp3/student-distrib/keyboard.c: the modifier keys, the switch between the
-- three terminals, and the line that is typed. A store outside a terminal's keyboard buffer is the
-- fault `none`.
pub mod Tables
pub mod Switch
pub mod Buffer
use ece_391_fall.Prelude.{
  ℕ, suc, ◌+◌, ◌-◌, ◌*◌, ◌/◌, ◌%◌, ◌^◌, Bool, not, ◌&&◌, ◌||◌, List, ◌∷◌, Option, none, some,
  get_or, ltb, leb, ◌==◌, if◌then◌else◌, update,
}
use ece_391_fall.Memory.{Mem, memcpy}
use ece_391_fall.Paging.{Pte, video}
use ece_391_fall.Pic.{Pic, send_eoi, enable_irq}
use ece_391_fall.Console.{
  Console, Terminal, memory_switch, set_terminal, update_cursor, putc, clear,
}
use Tables.{scan_code_match, scan_code_shift, scan_code_capital}

-- The driver's flags, over the console.
pub record Keyboard : Type 0 where
  pub console : Console
  pub ctrl_pressed : ℕ
  pub shift_pressed : ℕ
  pub capital : ℕ
  pub caps_lock_pressed : ℕ
  pub alt_pressed : ℕ

unfoldable pub keyboard_init : Pic → Pic
unfolding enable_irq
keyboard_init p = enable_irq 1 p

-- The terminal on the screen.
abbrev pub shown : Keyboard → Terminal
shown k = k.console.terminal k.console.cur_terminal

abbrev pub with_console : Console → Keyboard → Keyboard
with_console s k = record k { console = s }

-- The keys that only set a flag: the state after the key, `none` for any other key.
pub modifier : ℕ → Keyboard → Option Keyboard
modifier scan_code k =
    if scan_code == 0x2A || scan_code == 0x36
    then some (record k { shift_pressed = 1 })
    else if scan_code == 0xAA || scan_code == 0xB6
    then some (record k { shift_pressed = 0 })
    else if scan_code == 0x1D
    then some (record k { ctrl_pressed = 1 })
    else if scan_code == 0x9D
    then some (record k { ctrl_pressed = 0 })
    else if scan_code == 0x3A
    then some (
        if k.caps_lock_pressed == 0
        then record k { capital = (1 + 256 - k.capital) % 256; caps_lock_pressed = 1 }
        else k)
    else if scan_code == 0xBA
    then some (record k { caps_lock_pressed = 0 })
    else if scan_code == 0x38
    then some (record k { alt_pressed = 1 })
    else if scan_code == 0xB8
    then some (record k { alt_pressed = 0 })
    else none

-- A page copied between two addresses of the video range, through the page table.
abbrev pub copy_page : ℕ → ℕ → Console → Console
copy_page dest src s =
    let t = s.paging.page_table in
    record s {
      vmem =
          memcpy s.vmem ((t (dest / 2 ^ 12)).page_base_address * 2 ^ 12)
            ((t (src / 2 ^ 12)).page_base_address * 2 ^ 12) 4096;
    }

-- Alt and a function key: terminal `id` comes on the screen.
pub switch_terminal : ℕ → Console → Console
switch_terminal id s =
    if s.cur_terminal == id
    then s
    else let s1 = memory_switch s.cur_terminal s in
      let s2 = copy_page (video + (s1.cur_terminal + 2) * 4096) video s1 in
      let s3 = copy_page video (video + (id + 2) * 4096) s2 in
      let s4 = update_cursor (s3.terminal id).cursor_x (s3.terminal id).cursor_y s3 in
      let s5 = record s4 { cur_terminal = id } in memory_switch s5.run_terminal s5

pub press_backspace : Keyboard → Keyboard
press_backspace k =
    if (shown k).index == 0
    then k
    else let s = putc 8 1 k.console in
      let t = s.terminal s.cur_terminal in
      with_console (set_terminal s.cur_terminal (record t { index = t.index - 1 }) s) k

-- `keyboard_buffer[index++] = c` for the terminal on the screen.
pub store_key : ℕ → Console → Option Console
store_key c s =
    let t = s.terminal s.cur_terminal in
    if ltb t.index 128
    then some (
        set_terminal s.cur_terminal
          (record t { keyboard_buffer = update t.keyboard_buffer t.index c; index = t.index + 1 })
          s)
    else none

abbrev pub map_console : Option Console → Keyboard → Option Keyboard
map_console none k = none
map_console (some s) k = some (with_console s k)

-- The character `echo` is shown, and `c` goes into the buffer.
pub type_key : ℕ → ℕ → Keyboard → Option Keyboard
type_key echo c k = map_console (store_key c (putc echo 1 k.console)) k

-- `enter_pressed` of the terminal on the screen.
abbrev pub set_entered : Option Console → Option Console
set_entered none = none
set_entered (some s) =
    let t = s.terminal s.cur_terminal in
    some (set_terminal s.cur_terminal (record t { enter_pressed = 1 }) s)

pub press_enter : ℕ → Keyboard → Option Keyboard
press_enter c k = map_console (set_entered (store_key b'\n' (putc c 1 k.console))) k

-- The part that the three branches with a modifier share: `echo` is what they show.
pub modified_key : ℕ → ℕ → Keyboard → Option Keyboard
modified_key scan_code echo k =
    let c = scan_code_match scan_code in
    if leb 127 (shown k).index && not (c == b'\n')
    then some k
    else if c == b'\n'
    then press_enter c k
    else type_key echo c k

pub plain_key : ℕ → Keyboard → Option Keyboard
plain_key scan_code k =
    let c = scan_code_match scan_code in
    if c == b'\n'
    then press_enter c k
    else if not (c == 0) && ltb (shown k).index 127
    then type_key c c k
    else some k

-- What is shown for a key under shift and caps lock together.
abbrev pub shift_capital_echo : ℕ → ℕ
shift_capital_echo scan_code =
    let c = scan_code_match scan_code in
    if leb b'a' c && leb c b'z' then c else scan_code_shift scan_code

-- A key with a scan code below 58.
pub character_key : ℕ → Keyboard → Option Keyboard
character_key scan_code k =
    if k.ctrl_pressed == 1 && scan_code_match scan_code == b'l'
    then some (with_console (clear k.console) k)
    else if k.shift_pressed == 1 && k.shift_pressed == k.capital
    then modified_key scan_code (shift_capital_echo scan_code) k
    else if k.shift_pressed == 1 && not (k.shift_pressed == k.capital)
    then modified_key scan_code (scan_code_shift scan_code) k
    else if not (k.shift_pressed == 1) && not (k.shift_pressed == k.capital)
    then modified_key scan_code (scan_code_capital scan_code) k
    else plain_key scan_code k

-- The keys that are no modifiers.
pub other_key : ℕ → Keyboard → Option Keyboard
other_key scan_code k =
    if scan_code == 0x3B && k.alt_pressed == 1
    then some (with_console (switch_terminal 0 k.console) k)
    else if scan_code == 0x3C && k.alt_pressed == 1
    then some (with_console (switch_terminal 1 k.console) k)
    else if scan_code == 0x3D && k.alt_pressed == 1
    then some (with_console (switch_terminal 2 k.console) k)
    else if scan_code == 0x0E
    then some (press_backspace k)
    else if scan_code == 0x0F || scan_code == 0x01
    then some k
    else if ltb scan_code 58
    then character_key scan_code k
    else some k

abbrev pub acknowledge : Keyboard → Keyboard
acknowledge k = with_console (record (k.console) { ports = send_eoi 1 k.console.ports }) k

abbrev pub or_else : Option Keyboard → Option Keyboard → Option Keyboard
or_else none r = r
or_else (some k) r = some k

-- The handler of one keyboard interrupt, with the scan code read from the port.
pub keyboard_handler : ℕ → Keyboard → Option Keyboard
keyboard_handler scan_code k =
    let k' = acknowledge k in or_else (modifier scan_code k') (other_key scan_code k')
