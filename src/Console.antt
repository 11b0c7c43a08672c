-- ===== src/Console.antt =====
-- The screen of mp3/student-distrib: putc, puts and clear of lib.c, the terminals of terminal.c
-- and the hardware cursor of cursor.c. `vmem` is the physical memory that holds the screens; an
-- access to video memory goes through the kernel's page table. `ports` lists the bytes sent to
-- I/O ports, with the port, the newest first.
pub mod Screen
pub mod Scroll
pub mod Mapping
pub mod Terminals
pub mod Printf
use ece_391_fall.Prelude.{
  ℕ, zero, suc, ◌+◌, ◌-◌, ◌*◌, ◌/◌, ◌%◌, ◌^◌, bit_and, bit_or, Bool, ◌&&◌, ◌||◌, List, [], ◌∷◌,
  Option, none, some, length, get_or, ltb, leb, ◌==◌, if◌then◌else◌, update, minus_one, slt,
}
use ece_391_fall.Memory.{Mem, store}
use ece_391_fall.Paging.{Paging, Pte, video, set_pte}

abbrev pub num_cols : ℕ
num_cols = 80

abbrev pub num_rows : ℕ
num_rows = 25

abbrev pub attrib : ℕ
attrib = 7

abbrev pub user_video_addr : ℕ
user_video_addr = 0x8800000

-- `terminal_t`. The cursor and the index never go below 0.
pub record Terminal : Type 0 where
  pub keyboard_buffer : ℕ → ℕ
  pub enter_pressed : ℕ
  pub cursor_x : ℕ
  pub cursor_y : ℕ
  pub index : ℕ

pub record Console : Type 0 where
  pub paging : Paging
  pub terminal : ℕ → Terminal
  pub cur_terminal : ℕ
  pub run_terminal : ℕ
  pub vmem : Mem
  pub ports : List (ℕ × ℕ)

abbrev pub outb : ℕ → ℕ → Console → Console
outb v port s = record s { ports = (v, port) ∷ s.ports }

abbrev pub set_terminal : ℕ → Terminal → Console → Console
set_terminal t v s = record s { terminal = update s.terminal t v }

abbrev pub move_cursor : ℕ → ℕ → ℕ → Console → Console
move_cursor t x y s = set_terminal t (record (s.terminal t) { cursor_x = x; cursor_y = y }) s

-- The physical address behind `video_mem + off`.
abbrev pub video_mem : (ℕ → Pte) → ℕ → ℕ
video_mem t off = (t ((video + off) / 2 ^ 12)).page_base_address * 2 ^ 12 + (video + off) % 2 ^ 12

-- A byte stored to `video_mem + off`.
abbrev pub poke : ℕ → ℕ → Console → Console
poke off v s = record s { vmem = store s.vmem (video_mem s.paging.page_table off) v }

unfoldable pub enable_cursor : ℕ → ℕ → ℕ → ℕ → Console → Console
enable_cursor in1 in2 cursor_start cursor_end s =
    outb (bit_or (bit_and in2 0xE0) cursor_end) 0x3D5
      (outb 0x0B 0x3D4 (outb (bit_or (bit_and in1 0xC0) cursor_start) 0x3D5 (outb 0x0A 0x3D4 s)))

unfoldable pub disable_cursor : Console → Console
disable_cursor s = outb 0x20 0x3D5 (outb 0x0A 0x3D4 s)

unfoldable pub update_cursor : ℕ → ℕ → Console → Console
update_cursor x y s =
    let pos : ℕ = (y * 80 + x) % 2 ^ 16 in
    outb (pos / 2 ^ 8 % 2 ^ 8) 0x3D5
      (outb 0x0E 0x3D4 (outb (pos % 2 ^ 8) 0x3D5 (outb 0x0F 0x3D4 s)))

-- The two bytes read back from port 0x3D5.
unfoldable pub get_cursor_position : ℕ → ℕ → Console → ℕ × Console
get_cursor_position low high s =
    (bit_or (bit_or 0 low) (high * 2 ^ 8), outb 0x0E 0x3D4 (outb 0x0F 0x3D4 s))

-- The frame that memory_switch puts behind the video page.
abbrev pub screen_frame : ℕ → ℕ → ℕ
screen_frame cur_terminal switch_id =
    if switch_id == cur_terminal then video / 2 ^ 12 else video / 2 ^ 12 + 2 + switch_id

unfoldable pub memory_switch : ℕ → Console → Console
unfolding set_pte
memory_switch switch_id s =
    let frame = screen_frame s.cur_terminal switch_id in
    record s {
      paging = record (s.paging) {
        page_table = set_pte s.paging.page_table (video / 2 ^ 12) frame 0;
        user_video_page_table =
            set_pte s.paging.user_video_page_table (bit_and user_video_addr 0x003FF000 / 2 ^ 12)
              frame 1;
      };
    }

abbrev pub refresh_cursor : Console → Console
refresh_cursor s = let t = s.terminal s.cur_terminal in update_cursor t.cursor_x t.cursor_y s

-- The scrolling loop from cell `i` with `k` cells left, over the page table `t`.
pub scroll_from : ℕ → (ℕ → Pte) → ℕ → Mem → Mem
scroll_from zero t i m = m
scroll_from (suc k) t i m = scroll_from k t (i + 1) (
    if ltb i (num_cols * (num_rows - 1))
    then store m (video_mem t (2 * i)) (m (video_mem t (2 * (i + num_cols))))
    else store (store m (video_mem t (2 * i)) b' ') (video_mem t (2 * i + 1)) attrib)

abbrev pub scroll : Console → Console
scroll s = record s { vmem = scroll_from (num_rows * num_cols) s.paging.page_table 0 s.vmem }

-- The cursor is at row `y` after a step down: the screen scrolls at the bottom.
pub wrap_row : ℕ → ℕ → ℕ → Console → Console
wrap_row tid x y s =
    if leb num_rows y
    then move_cursor tid x (if y - 1 == 255 then y else y - 1) (scroll s)
    else move_cursor tid x y s

-- A character and its attribute at the cursor of terminal `tid`.
abbrev pub put_cell : ℕ → ℕ → Console → Console
put_cell tid c s =
    let t = s.terminal tid in
    let off : ℕ = 2 * (num_cols * t.cursor_y + t.cursor_x) in poke (off + 1) attrib (poke off c s)

-- The page table goes back to the running terminal after an echo.
abbrev pub leave : ℕ → Console → Console
leave user s = if user == 1 then memory_switch s.run_terminal s else s

-- The backspace branch of putc; its first return leaves the page table as it is.
pub putc_backspace : ℕ → ℕ → Console → Console
putc_backspace tid user s =
    let t = s.terminal tid in
    if t.cursor_x == 0 && t.cursor_y == 0
    then s
    else let x = (if t.cursor_x == 0 then num_cols else t.cursor_x) - 1 in
      let y = if t.cursor_x == 0 then t.cursor_y - 1 else t.cursor_y in
      let s' =
        if x == 255 then move_cursor tid (num_cols - 1) (y - 1) s else move_cursor tid x y s in
      leave user (refresh_cursor (put_cell tid b' ' s'))

pub putc_newline : ℕ → ℕ → Console → Console
unfolding wrap_row
putc_newline tid user s =
    leave user (refresh_cursor (wrap_row tid 0 ((s.terminal tid).cursor_y + 1) s))

pub putc_char : ℕ → ℕ → ℕ → Console → Console
unfolding wrap_row
putc_char tid c user s =
    let t = s.terminal tid in
    let s' =
      if leb num_cols t.cursor_x then refresh_cursor (wrap_row tid 0 (t.cursor_y + 1) s) else s in
    let s'' = put_cell tid c s' in
    let t'' = s''.terminal tid in
    leave user (refresh_cursor (move_cursor tid (t''.cursor_x + 1) t''.cursor_y s''))

unfoldable pub putc : ℕ → ℕ → Console → Console
unfolding putc_backspace putc_newline putc_char
putc c user s =
    let tid = if user == 0 then s.run_terminal else s.cur_terminal in
    let s' = if user == 1 then memory_switch s.cur_terminal s else s in
    if c == 8
    then putc_backspace tid user s'
    else if c == b'\n' || c == b'\r'
    then putc_newline tid user s'
    else putc_char tid c user s'

-- The bytes before the NUL of the string are printed; the result is their number.
unfoldable pub puts : List ℕ → ℕ → Console → ℕ × Console
unfolding putc
puts [] index s = (index, s)
puts (c ∷ cs) index s =
    let rest = puts cs (index + 1) (putc c 0 s) in if c == 0 then (index, s) else rest

-- The clearing loop from cell `i` with `k` cells left.
pub blank_from : ℕ → (ℕ → Pte) → ℕ → Mem → Mem
blank_from zero t i m = m
blank_from (suc k) t i m =
    blank_from k t (i + 1)
      (store (store m (video_mem t (2 * i)) b' ') (video_mem t (2 * i + 1)) attrib)

unfoldable pub clear : Console → Console
unfolding memory_switch
clear s =
    let s1 =
      memory_switch s.cur_terminal
        (move_cursor s.cur_terminal 0 0 (memory_switch s.cur_terminal s)) in
    let s2 = record s1 { vmem = blank_from (num_rows * num_cols) s1.paging.page_table 0 s1.vmem } in
    refresh_cursor (memory_switch s2.run_terminal s2)
