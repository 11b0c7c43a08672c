-- ===== src/Process/SystemCalls.antt =====
-- The system calls of mp3/student-distrib/system_calls.c on files: open, close, read and write over
-- the drivers' operations; and getargs and vidmap. A wait of a driver is for interrupts: the scan codes
-- to come are `keys`, and `ticks` bounds the clock's interrupts.
pub mod Descriptors
use ece_391_fall.Prelude.{
  ℕ, zero, suc, ◌+◌, ◌-◌, ◌*◌, ◌/◌, ◌%◌, ◌^◌, Bool, true, false, ◌&&◌, ◌||◌, List, Option, none,
  some, ltb, leb, ◌==◌, if◌then◌else◌, add32, minus_one, slt, sle, update,
}
use ece_391_fall.Memory.{Mem, store, load32}
use ece_391_fall.FileSystem.{
  Dentry, read_dentry_by_name, file_open, file_close, file_read, file_write, dir_open, dir_close,
  dir_read, dir_write,
}
use ece_391_fall.Console.{Console}
use ece_391_fall.Keyboard.{Keyboard, with_console}
use ece_391_fall.Paging.{Paging, set_pde}
use ece_391_fall.Rtc.{rtc_open, rtc_read, rtc_write, rtc_close}
use ece_391_fall.TerminalDriver.{
  ReadEnd, returns, faults, waits, terminal_open, terminal_close, terminal_read, terminal_write,
}
use ece_391_fall.Process.{
  Driver, rtc, directory, file, terminal, invalid, FileDescriptor, Pcb, System, cur_pcb, descriptor,
  set_descriptor, user_addr, user_stack_addr,
}

-- What a call comes to: a result, an access outside an array of the kernel, or a wait that the given
-- interrupts do not end.
pub data Outcome : Type 0 where
  result : ℕ → System → Outcome
  fault : Outcome
  blocked : Outcome

abbrev pub console_of : System → Console
console_of s = s.keyboard.console

abbrev pub set_console : Console → System → System
set_console c s = record s { keyboard = with_console c s.keyboard }

abbrev pub run_terminal : System → ℕ
run_terminal s = (console_of s).run_terminal

-- `file_operations_table_ptr.open(filename)`.
pub driver_open : Driver → Option (List ℕ) → System → ℕ × System
unfolding rtc_open file_open dir_open terminal_open
driver_open rtc name s =
    let named : Bool = elim name [ none ↦ false | some n ↦ true ] in
    let (v, r) = rtc_open named (run_terminal s) s.clock in (v, record s { clock = r })
driver_open directory name s = (dir_open s.file_system s.mem name, s)
driver_open file name s = (file_open s.file_system s.mem name, s)
driver_open terminal name s = (terminal_open, s)
driver_open invalid name s = (minus_one, s)

unfoldable pub driver_close : Driver → ℕ → System → ℕ × System
unfolding rtc_close file_close dir_close terminal_close
driver_close rtc fd s = (rtc_close fd, s)
driver_close directory fd s = (dir_close fd, s)
driver_close file fd s = (file_close fd, s)
driver_close terminal fd s = let (v, c) = terminal_close fd (console_of s) in (v, set_console c s)
driver_close invalid fd s = (minus_one, s)

abbrev terminal_outcome : ReadEnd → System → Outcome
terminal_outcome (returns v k m) s = result v (record s { keyboard = k; mem = m })
terminal_outcome faults s = fault
terminal_outcome (waits k) s = blocked

pub driver_read : Driver → List ℕ → ℕ → ℕ → ℕ → ℕ → System → Outcome
unfolding rtc_read file_read dir_read
driver_read rtc keys ticks fd buf nbytes s = elim (rtc_read ticks (run_terminal s) s.clock) [
  | none ↦ blocked
  | some (v, r) ↦ result v (record s { clock = r })
]
driver_read directory keys ticks fd buf nbytes s =
    let (v, fs, m) = dir_read s.file_system s.mem fd buf nbytes in
    result v (record s { file_system = fs; mem = m })
driver_read file keys ticks fd buf nbytes s =
    let d = descriptor s fd in
    let (v, m) = file_read s.file_system s.mem d.inode d.file_position fd buf nbytes in
    result v (record s { mem = m })
driver_read terminal keys ticks fd buf nbytes s =
    terminal_outcome (terminal_read keys buf nbytes s.keyboard s.mem) s
driver_read invalid keys ticks fd buf nbytes s = result minus_one s

pub driver_write : Driver → ℕ → ℕ → ℕ → System → ℕ × System
unfolding rtc_write file_write dir_write terminal_write
driver_write rtc fd buf nbytes s =
    let frequency : Option ℕ = if buf == 0 then none else some (load32 s.mem buf) in
    let (v, r) = rtc_write frequency (run_terminal s) s.clock in (v, record s { clock = r })
driver_write directory fd buf nbytes s = (dir_write fd buf nbytes, s)
driver_write file fd buf nbytes s = (file_write fd buf nbytes, s)
driver_write terminal fd buf nbytes s =
    let (v, c) = terminal_write buf nbytes s.mem (console_of s) in (v, set_console c s)
driver_write invalid fd buf nbytes s = (minus_one, s)

-- The tests that `read` and `write` begin with.
abbrev pub refused : ℕ → ℕ → ℕ → Bool
refused fd buf nbytes = slt fd 0 || sle 8 fd || buf == 0 || sle nbytes 0

-- The position moves by the result, -1 included.
abbrev pub advance : ℕ → Outcome → Outcome
advance fd (result v s) =
    let d = descriptor s fd in
    result v (set_descriptor fd (record d { file_position = add32 d.file_position v }) s)
advance fd fault = fault
advance fd blocked = blocked

pub read : List ℕ → ℕ → ℕ → ℕ → ℕ → System → Outcome
unfolding driver_read
read keys ticks fd buf nbytes s =
    let d = descriptor s fd in
    if refused fd buf nbytes || d.flags == 0
    then result minus_one s
    else advance fd (driver_read d.file_operations_table_ptr.read_op keys ticks fd buf nbytes s)

pub write : ℕ → ℕ → ℕ → System → ℕ × System
unfolding driver_write
write fd buf nbytes s =
    let d = descriptor s fd in
    if refused fd buf nbytes || d.flags == 0
    then (minus_one, s)
    else driver_write d.file_operations_table_ptr.write_op fd buf nbytes s

-- The loop that looks for a free descriptor from `i` with `k` left.
pub find_free : ℕ → ℕ → (ℕ → FileDescriptor) → Option ℕ
find_free zero i fds = none
find_free (suc k) i fds =
    let rest = find_free k (i + 1) fds in if (fds i).flags == 0 then some i else rest

unfoldable pub driver_of_type : ℕ → Option Driver
driver_of_type filetype =
    if filetype == 0
    then some rtc
    else if filetype == 1
    then some directory
    else if filetype == 2
    then some file
    else none

-- The descriptor that is set up for a file.
abbrev pub opened : Driver → Dentry → FileDescriptor
opened d dentry = record {
  file_operations_table_ptr = record { open_op = d; close_op = d; read_op = d; write_op = d };
  inode = dentry.inode_num;
  file_position = 0;
  flags = 1;
}

-- The end of `open`, for the free descriptor `i`.
abbrev pub open_at : ℕ → Option (List ℕ) → Dentry → Option Driver → System → ℕ × System
open_at i name dentry none s =
    (minus_one, set_descriptor i (record (descriptor s i) { flags = 0 }) s)
open_at i name dentry (some d) s =
    let (v, s') = driver_open d name (set_descriptor i (opened d dentry) s) in (i, s')

abbrev pub open_dentry : Option (List ℕ) → Option Dentry → Option ℕ → System → ℕ × System
open_dentry name none free s = (minus_one, s)
open_dentry name (some dentry) none s = (minus_one, s)
open_dentry name (some dentry) (some i) s =
    open_at i name dentry (driver_of_type dentry.file_type) s

pub open_file : Option (List ℕ) → System → ℕ × System
unfolding read_dentry_by_name find_free driver_of_type driver_open
open_file name s =
    open_dentry name (read_dentry_by_name s.file_system s.mem name)
      (find_free 8 0 (cur_pcb s).file_descriptor_array) s

pub close_file : ℕ → System → ℕ × System
unfolding driver_close
close_file fd s =
    let d = descriptor s fd in
    if sle fd 1 || sle 8 fd || d.flags == 0
    then (minus_one, s)
    else let (v, s') = driver_close d.file_operations_table_ptr.close_op fd s in
      (0, set_descriptor fd (record (descriptor s' fd) { flags = 0 }) s')

-- The length of the string in an array from index `i`, `none` if there is no NUL in the `k` bytes.
pub string_length : ℕ → (ℕ → ℕ) → ℕ → Option ℕ
string_length zero a i = none
string_length (suc k) a i =
    let rest = string_length k a (i + 1) in if a i == 0 then some i else rest

-- `memcpy` from an array of the kernel into memory.
abbrev pub copy_out : ℕ → ℕ → (ℕ → ℕ) → Mem → Mem
copy_out buf n a m p = if leb buf p && ltb p (buf + n) then a (p - buf) else m p

abbrev pub getargs_copy : Option ℕ → ℕ → ℕ → System → Outcome
getargs_copy none buf nbytes s = fault
getargs_copy (some len) buf nbytes s =
    if ltb nbytes len
    then result minus_one s
    else if ltb 128 nbytes
    then fault
    else result 0 (record s { mem = copy_out buf nbytes (cur_pcb s).args s.mem })

-- A copy of more than the 128 bytes of `args` is a fault.
pub getargs : ℕ → ℕ → System → Outcome
unfolding string_length
getargs buf nbytes s =
    if buf == 0 || sle nbytes 0 || (cur_pcb s).args 0 == 0
    then result minus_one s
    else if slt buf user_addr || slt user_stack_addr buf
    then result minus_one s
    else getargs_copy (string_length 128 (cur_pcb s).args 0) buf nbytes s

-- A 32-bit store, the low byte first.
abbrev pub store32 : Mem → ℕ → ℕ → Mem
store32 m a v =
    let m1 = store m a (v % 256) in
    let m2 = store m1 (a + 1) (v / 256 % 256) in
    let m3 = store m2 (a + 2) (v / 65536 % 256) in store m3 (a + 3) (v / 16777216 % 256)

abbrev map_video : Paging → Paging
map_video p = record p {
  page_directory =
      set_pde p.page_directory (0x8800000 / 2 ^ 22) (p.user_video_page_table_addr / 2 ^ 12) 0 0 1;
}

pub vidmap : ℕ → System → ℕ × System
unfolding set_pde
vidmap screen_start s =
    if screen_start == 0 || ltb screen_start user_addr || ltb user_stack_addr screen_start
    then (minus_one, s)
    else let c = console_of s in
      let s' = set_console (record c { paging = map_video c.paging }) s in
      (0, record s' { mem = store32 s.mem screen_start 0x8800000 })
