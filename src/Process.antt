-- ===== src/Process.antt =====
-- The processes of mp3/student-distrib/system_calls.c: the process control blocks, found from the
-- kernel stack pointer, and the file descriptors with their tables of operations. The
-- blocks are a function of the address they stand at.
pub mod Blocks
pub mod SystemCalls
pub mod Signals
pub mod Command
pub mod Pids
pub mod Pages
pub mod Switching
pub mod Tree
use ece_391_fall.Prelude.{
  ℕ, ◌+◌, ◌-◌, ◌*◌, ◌/◌, ◌%◌, ◌^◌, Option, if◌then◌else◌, add32, sub32, slt, update,
}
use ece_391_fall.Memory.{Mem}
use ece_391_fall.FileSystem.{FileSystem}
use ece_391_fall.Rtc.{Rtc}
use ece_391_fall.Keyboard.{Keyboard}

abbrev pub kernel_bottom_addr : ℕ
kernel_bottom_addr = 0x800000

abbrev pub user_addr : ℕ
user_addr = 0x8000000

abbrev pub user_stack_addr : ℕ
user_stack_addr = 0x8400000

-- What a function pointer of an operations table points to: the driver whose function it is.
pub data Driver : Type 0 where
  rtc : Driver
  directory : Driver
  file : Driver
  terminal : Driver
  invalid : Driver

-- `file_operations_table`.
pub record FileOperations : Type 0 where
  pub open_op : Driver
  pub close_op : Driver
  pub read_op : Driver
  pub write_op : Driver

pub record FileDescriptor : Type 0 where
  pub file_operations_table_ptr : FileOperations
  pub inode : ℕ
  pub file_position : ℕ
  pub flags : ℕ

-- A handler: one of the two functions of the kernel, or an address.
pub data Handler : Type 0 where
  kill : Handler
  ignore : Handler
  address : ℕ → Handler

pub record Sigaction : Type 0 where
  pub flag : ℕ
  pub mask : ℕ
  pub handler : Handler

pub record Pcb : Type 0 where
  pub file_descriptor_array : ℕ → FileDescriptor
  pub parent_pid : ℕ
  pub pid : ℕ
  pub esp : ℕ
  pub ebp : ℕ
  pub run_ebp : ℕ
  pub args : ℕ → ℕ
  pub signals : ℕ → Sigaction

-- The kernel's state at a system call: the drivers, the memory as the current process addresses
-- it, the control blocks, the two tables of the scheduler, the contents of the 4 MB pages of the
-- processes by frame, the two fields of the task state segment, and the stack pointer.
pub record System : Type 0 where
  pub keyboard : Keyboard
  pub clock : Rtc
  pub file_system : FileSystem
  pub mem : Mem
  pub pcb_at : ℕ → Pcb
  pub pid_bitmap : ℕ → ℕ
  pub schedule : ℕ → ℕ
  pub user_pages : ℕ → ℕ → ℕ
  pub tss_ss0 : ℕ
  pub tss_esp0 : ℕ
  pub esp : ℕ

unfoldable pub get_pcb_ptr : ℕ → ℕ
get_pcb_ptr pid = sub32 kernel_bottom_addr ((add32 pid 1 * 0x2000) % 2 ^ 32)

-- `(KERNEL_BOTTOM_ADDR - esp) / 0x2000`: the division of an int32_t rounds towards 0.
unfoldable pub get_pid : ℕ → ℕ
get_pid esp =
    let d = sub32 kernel_bottom_addr esp in
    if slt d 0 then sub32 0 (sub32 0 d / 0x2000) else d / 0x2000

unfoldable pub get_cur_pcb_ptr : ℕ → ℕ
unfolding get_pcb_ptr get_pid
get_cur_pcb_ptr esp = get_pcb_ptr (get_pid esp)

-- The control block of the current process, and a store into it.
abbrev pub cur_pcb : System → Pcb
cur_pcb s = s.pcb_at (get_cur_pcb_ptr s.esp)

abbrev pub set_cur_pcb : Pcb → System → System
set_cur_pcb p s = record s { pcb_at = update s.pcb_at (get_cur_pcb_ptr s.esp) p }

abbrev pub descriptor : System → ℕ → FileDescriptor
descriptor s fd = (cur_pcb s).file_descriptor_array fd

abbrev pub set_descriptor : ℕ → FileDescriptor → System → System
set_descriptor fd d s =
    let p = cur_pcb s in
    set_cur_pcb (record p { file_descriptor_array = update p.file_descriptor_array fd d }) s
