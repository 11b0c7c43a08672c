-- ===== src/Process/Switching.antt =====
-- execute and halt of mp3/student-distrib/system_calls.c and pit_handler of pit.c, up to where the
-- processor takes over another stack. `header` is the address of execute's buffer for the
-- first 40 bytes of a file, `stack` what its array of arguments held before, and `ebp` the base pointer.
pub mod Halting
pub mod Outcomes
pub mod Starting
pub mod Turns
use ece_391_fall.Prelude.{
  ℕ, zero, suc, ◌+◌, ◌-◌, ◌*◌, ◌/◌, ◌%◌, ◌^◌, Bool, not, ◌&&◌, ◌||◌, List, [], ◌∷◌, Option, none,
  some, length, get_or, ltb, leb, ◌==◌, if◌then◌else◌, minus_one, update,
}
use ece_391_fall.Memory.{Mem, load32}
use ece_391_fall.Strings.Buffers.{codes}
use ece_391_fall.FileSystem.{Dentry, read_dentry_by_name, read_data}
use ece_391_fall.Console.{Console, puts, putc, memory_switch}
use ece_391_fall.Pic.{Pic, outb, enable_irq, send_eoi}
use ece_391_fall.Process.{
  Driver, terminal, invalid, FileDescriptor, Pcb, System, cur_pcb, get_pcb_ptr, get_cur_pcb_ptr,
  get_pid,
}
use ece_391_fall.Process.SystemCalls.{console_of, set_console, driver_close}
use ece_391_fall.Process.Signals.{init_signals}
use ece_391_fall.Process.Command.{Command, bad, overflow, command, parse_command}
use ece_391_fall.Process.Pids.{
  take_pid, give_pid, parent_of, start_from, finish_from, next_terminal, execute_esp0, pit_esp0,
}
use ece_391_fall.Process.Pages.{map_user}

-- How a call leaves: by a result; by `iret` to the entry point of a program; on another
-- stack, with the result of a call that waits there; on the stack of a process that the timer
-- interrupted; or by a store outside an array.
pub data Switch : Type 0 where
  returns : ℕ → System → Switch
  enters : ℕ → System → Switch
  resumes : ℕ → ℕ → ℕ → System → Switch
  continues : ℕ → System → Switch
  fault : Switch

-- A printf without a `%`, which puts character by character.
abbrev pub print : List ℕ → System → System
print cs s = set_console (puts cs 0 (console_of s)).1 s

abbrev rule_line : List ℕ
rule_line = codes "----------------------------------------------------\n"

abbrev pub full_banner : System → System
full_banner s =
    print rule_line
      (print (codes "|            Maximum process number reached        |\n") (print rule_line s))

abbrev pub base_shell_banner : System → System
base_shell_banner s =
    print rule_line
      (print (codes "|               Cannot exit base shell             |\n") (print rule_line s))

-- The array of arguments: the characters, the NUL, and what stood behind them.
abbrev pub args_array : (ℕ → ℕ) → List ℕ → ℕ → ℕ
args_array stack args i =
    if ltb i (length args) then get_or args i 0 else if i == length args then 0 else stack i

-- stdin and stdout.
abbrev pub standard : Driver → Driver → FileDescriptor
standard r w = record {
  file_operations_table_ptr = record {
    open_op = invalid;
    close_op = invalid;
    read_op = r;
    write_op = w;
  };
  inode = 0;
  file_position = 0;
  flags = 1;
}

-- The control block of the new process.
abbrev pub start_pcb : (ℕ → ℕ) → List ℕ → ℕ → ℕ → Pcb → Pcb
start_pcb stack args pid parent p = record p {
  pid = pid;
  parent_pid = parent;
  args = λ i. if ltb i 128 then args_array stack args i else p.args i;
  file_descriptor_array =
      update (update p.file_descriptor_array 0 (standard terminal invalid)) 1
        (standard invalid terminal);
  signals = init_signals 5 0 p.signals;
}

-- The task state segment for a process: KERNEL_DS, and the top of its stack.
abbrev pub set_tss : ℕ → System → System
set_tss esp0 s = record s { tss_ss0 = 0x18; tss_esp0 = esp0 }

abbrev pub set_pcb : ℕ → Pcb → System → System
set_pcb pid p s = record s { pcb_at = update s.pcb_at (get_pcb_ptr pid) p }

-- The image goes to 0x08048000, up to the end of the page.
abbrev pub load_image : ℕ → System → System
load_image inode s = record s {
  mem = (read_data s.file_system s.mem inode 0 0x08048000 (0x8400000 - 0x08048000)).1;
}

-- execute once the process number is taken.
pub start : (ℕ → ℕ) → ℕ → ℕ → List ℕ → ℕ → ℕ → System → Switch
start stack header ebp args inode pid s =
    let parent = parent_of pid (get_pid s.esp) in
    let p = start_pcb stack args pid parent (s.pcb_at (get_pcb_ptr pid)) in
    let s1 = record s { schedule = start_from 3 0 parent pid s.schedule } in
    let s2 = load_image inode (map_user pid (set_pcb pid p s1)) in
    let s3 = set_tss (execute_esp0 pid) s2 in
    enters (load32 s.mem (header + 24)) (set_pcb pid (record p { esp = s.esp; ebp = ebp }) s3)

-- The first four bytes of a program.
abbrev pub is_program : Mem → ℕ → Bool
is_program m header =
    m header == 0x7f && m (header + 1) == 0x45 && m (header + 2) == 0x4c && m (header + 3) == 0x46

abbrev pub take : (ℕ → ℕ) → ℕ → ℕ → List ℕ → ℕ → Option ℕ × (ℕ → ℕ) → System → Switch
take stack header ebp args inode (none, bitmap) s = returns minus_one (full_banner s)
take stack header ebp args inode (some pid, bitmap) s =
    start stack header ebp args inode pid (record s { pid_bitmap = bitmap })

-- execute once the file is found.
abbrev pub execute_file : (ℕ → ℕ) → ℕ → ℕ → List ℕ → Option Dentry → System → Switch
execute_file stack header ebp args none s = returns minus_one s
execute_file stack header ebp args (some d) s =
    let (n, m) = read_data s.file_system s.mem d.inode_num 0 header 40 in
    let s' = record s { mem = m } in
    if not (n == 40) || not (is_program m header)
    then returns minus_one s'
    else take stack header ebp args d.inode_num (take_pid s'.pid_bitmap) s'

abbrev pub execute_command : (ℕ → ℕ) → ℕ → ℕ → Command → System → Switch
execute_command stack header ebp bad s = returns minus_one s
execute_command stack header ebp overflow s = fault
execute_command stack header ebp (command filename args) s =
    execute_file stack header ebp args (read_dentry_by_name s.file_system s.mem (some filename)) s

abbrev pub execute : (ℕ → ℕ) → ℕ → ℕ → Option (List ℕ) → System → Switch
execute stack header ebp none s = returns minus_one s
execute stack header ebp (some line) s = execute_command stack header ebp (parse_command line) s

-- A round of the loop of halt over the descriptors of the block at `at`.
unfoldable pub close_one : ℕ → ℕ → System → System
unfolding driver_close
close_one i at s =
    let p = s.pcb_at at in
    let d = p.file_descriptor_array i in
    let cleared = update p.file_descriptor_array i (record d { flags = 0 }) in
    let s' = record s {
      pcb_at = update s.pcb_at at (record p { file_descriptor_array = cleared });
    } in
    if d.flags == 1 then (driver_close d.file_operations_table_ptr.close_op i s').1 else s

-- The loop, from `i` with `k` left.
pub close_from : ℕ → ℕ → ℕ → System → System
unfolding close_one
close_from zero i at s = s
close_from (suc k) i at s = close_from k (i + 1) at (close_one i at s)

-- halt behind the base shell's test; `ret` is what the parent's execute returns.
pub leave : ℕ → System → Switch
unfolding close_from
leave ret s =
    let now = get_cur_pcb_ptr s.esp in
    let s1 = close_from 8 0 now s in
    let p = s1.pcb_at now in
    let s2 = record s1 { schedule = finish_from 3 0 p.parent_pid p.pid s1.schedule } in
    let s3 = set_tss (execute_esp0 p.parent_pid) (map_user p.parent_pid s2) in
    resumes ret p.ebp p.esp s3

-- A base shell that halts is executed again; where that fails, halt goes on.
abbrev pub leave_after : ℕ → Switch → Switch
leave_after ret (returns v s) = leave ret s
leave_after ret (enters entry s) = enters entry s
leave_after ret (resumes v ebp esp s) = resumes v ebp esp s
leave_after ret (continues ebp s) = continues ebp s
leave_after ret fault = fault

pub halt : (ℕ → ℕ) → ℕ → ℕ → ℕ → System → Switch
unfolding leave
halt stack header ebp status s =
    let s1 = set_console (putc b'\n' 0 (console_of s)) s in
    let ret = if status == 1 then 256 else 0 in
    let pid = (cur_pcb s1).pid in
    let s2 = record s1 { pid_bitmap = give_pid pid s1.pid_bitmap } in
    if pid == 0 || pid == 1 || pid == 2
    then leave_after ret (execute stack header ebp (some (codes "shell")) (base_shell_banner s2))
    else leave ret s2

abbrev pub pit_init : Pic → Pic
pit_init p =
    enable_irq 0 (record p { ports = outb 0x2E 0x40 (outb 0x9C 0x40 (outb 0x37 0x43 p.ports)) })

-- pit_handler behind the test for an idle terminal.
pub switch_to : ℕ → System → Switch
switch_to new_pid s =
    let s1 = map_user new_pid s in
    let s2 = set_console (memory_switch (console_of s1).run_terminal (console_of s1)) s1 in
    let p = s2.pcb_at (get_pcb_ptr new_pid) in continues p.run_ebp (set_tss (pit_esp0 new_pid) s2)

abbrev pub switch_after : ℕ → Switch → Switch
switch_after new_pid (returns v s) = switch_to new_pid s
switch_after new_pid (enters entry s) = enters entry s
switch_after new_pid (resumes v ebp esp s) = resumes v ebp esp s
switch_after new_pid (continues ebp s) = continues ebp s
switch_after new_pid fault = fault

pub pit_handler : (ℕ → ℕ) → ℕ → ℕ → System → Switch
unfolding switch_to
pit_handler stack header ebp s =
    let c = console_of s in
    let c' = record c { run_terminal = next_terminal c.run_terminal; ports = send_eoi 0 c.ports } in
    let s1 = set_console c' s in
    let now = get_cur_pcb_ptr s.esp in
    let s2 = record s1 {
      pcb_at = update s1.pcb_at now (record (s1.pcb_at now) { run_ebp = ebp });
    } in
    let new_pid = s2.schedule c'.run_terminal in
    if new_pid == minus_one
    then switch_after new_pid (
        execute stack header ebp (some (codes "shell"))
          (set_console (memory_switch c'.run_terminal (console_of s2)) s2))
    else switch_to new_pid s2
