-- ===== src/TerminalDriver.antt =====
-- The terminal driver of mp3/student-distrib/terminal.c: open, close, read, write and init. The
-- wait of terminal_read is for keyboard interrupts: their scan codes are a list.
pub mod ReadLine
use ece_391_fall.Prelude.{
  ℕ, zero, suc, ◌+◌, ◌-◌, ◌%◌, ◌^◌, Bool, ◌||◌, List, [], ◌∷◌, Option, none, some, ltb, leb, ◌==◌,
  if◌then◌else◌, add32, minus_one, slt,
}
use ece_391_fall.Memory.{Mem, store}
use ece_391_fall.Console.{Console, Terminal, set_terminal, putc, enable_cursor, update_cursor}
use ece_391_fall.Keyboard.{Keyboard, keyboard_handler, with_console}

unfoldable pub terminal_open : ℕ
terminal_open = 0

-- `memset(keyboard_buffer, 0, 128)`.
abbrev pub cleared : (ℕ → ℕ) → ℕ → ℕ
cleared b i = if ltb i 128 then 0 else b i

unfoldable pub terminal_close : ℕ → Console → ℕ × Console
terminal_close fd s =
    let t = s.terminal s.run_terminal in
    (
      0,
      set_terminal s.run_terminal
          (record t { index = 0; keyboard_buffer = cleared t.keyboard_buffer }) s,
    )

-- The statements of terminal_read before its wait.
abbrev pub read_start : Console → Console
read_start s =
    let t = s.terminal s.run_terminal in
    set_terminal s.run_terminal
      (record t { keyboard_buffer = cleared t.keyboard_buffer; index = 0; enter_pressed = 0 }) s

-- How the wait ends: by the enter key, by a fault of the keyboard driver, or not yet.
pub data Wait : Type 0 where
  entered : Keyboard → Wait
  fault : Wait
  waiting : Keyboard → Wait

-- `while (!enter_pressed) {}`, with a keyboard interrupt in each round.
pub await_enter : List ℕ → Keyboard → Wait
await_enter [] k =
    if (k.console.terminal k.console.run_terminal).enter_pressed == 0 then waiting k else entered k
await_enter (c ∷ cs) k =
    let next : Wait = elim (keyboard_handler c k) [ none ↦ fault | some k' ↦ await_enter cs k' ] in
    if (k.console.terminal k.console.run_terminal).enter_pressed == 0 then next else entered k

-- The copying loop from `ct` with `k` rounds left: the bytes read, the memory, and where a new line
-- ended the loop.
pub copy_line : ℕ → (ℕ → ℕ) → ℕ → Mem → ℕ → ℕ × Mem × Option ℕ
copy_line zero line buf m ct = (ct, m, none)
copy_line (suc k) line buf m ct =
    let rest = copy_line k line buf (store m (buf + ct) (line ct)) (ct + 1) in
    if leb 128 ct
    then (ct, m, none)
    else if line ct == b'\n'
    then (ct + 1, store m (buf + ct) (line ct), some ct)
    else rest

-- The loop that pads: each of its `k` rounds stores at `buffer[ct]`.
pub pad_line : ℕ → ℕ → Mem → ℕ → Mem
pad_line zero buf m ct = m
pad_line (suc k) buf m ct = pad_line k buf (store m (buf + ct) 0) ct

-- The statements of terminal_read after its wait.
pub read_line : (ℕ → ℕ) → ℕ → ℕ → Mem → ℕ × Mem
unfolding copy_line pad_line
read_line line buf nbytes m =
    let (ret, m', last) = copy_line nbytes line buf m 0 in
    elim last [ none ↦ (ret, m') | some ct ↦ (ret, pad_line (nbytes - (ct + 1)) buf m' ct) ]

-- What terminal_read comes to: a result, or a wait that has not ended.
pub data ReadEnd : Type 0 where
  returns : ℕ → Keyboard → Mem → ReadEnd
  faults : ReadEnd
  waits : Keyboard → ReadEnd

pub terminal_read : List ℕ → ℕ → ℕ → Keyboard → Mem → ReadEnd
unfolding await_enter read_line
terminal_read keys buf nbytes k m =
    if buf == 0 || slt nbytes 0
    then returns minus_one k m
    else elim (await_enter keys (with_console (read_start k.console) k)) [
      | fault ↦ faults
      | waiting k' ↦ waits k'
      | entered k' ↦
          let t = k'.console.terminal k'.console.run_terminal in
          let (ret, m') = read_line t.keyboard_buffer buf nbytes m in returns ret k' m'
    ]

-- The writing loop from `ct` with `k` bytes left.
pub write_from : ℕ → Mem → ℕ → ℕ → Console → Console
unfolding putc
write_from zero m buf ct s = s
write_from (suc k) m buf ct s = write_from k m buf (ct + 1) (putc (m (buf + ct)) 0 s)

unfoldable pub terminal_write : ℕ → ℕ → Mem → Console → ℕ × Console
unfolding write_from
terminal_write buf nbytes m s =
    if buf == 0 || slt nbytes 0 then (minus_one, s) else (nbytes, write_from nbytes m buf 0 s)

-- The loop over the terminals from `i` with `k` left; the inputs are the bytes read from the port.
pub init_from : ℕ → ℕ → ℕ → ℕ → Console → Console
init_from zero i in1 in2 s = s
init_from (suc k) i in1 in2 s =
    let t = record (s.terminal i) { index = 0; enter_pressed = 0; cursor_x = 0; cursor_y = 0 } in
    let s' = enable_cursor in1 in2 0 14 (set_terminal i t s) in
    init_from k (i + 1) in1 in2 (update_cursor 0 0 s')

unfoldable pub terminal_init : ℕ → ℕ → Console → Console
unfolding init_from
terminal_init in1 in2 s = init_from 3 0 in1 in2 s
