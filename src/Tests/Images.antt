-- ===== src/Tests/Images.antt =====
-- A file-system image with one regular file, and the states that the tests start from.
use ece_391_fall.Prelude.{◌-◌, ◌^◌, ◌&&◌, [], ltb, leb, ◌==◌, if◌then◌else◌}
use ece_391_fall.Memory.{Mem}
use ece_391_fall.FileSystem.{FileSystem}
use ece_391_fall.Paging.{Paging, zero_pde, zero_pte}
use ece_391_fall.Console.{Console, Terminal}
use ece_391_fall.Keyboard.{Keyboard}
use ece_391_fall.Rtc.{Rtc}
use ece_391_fall.Process.{invalid, FileDescriptor, kill, Pcb, System}

-- One directory entry, named "a", and one index node, of a file of 300 bytes in data block 1.
abbrev pub image : Mem
image a =
    if a == 0x1000
    then 1
    else if a == 0x1004
    then 1
    else if a == 0x1040
    then b'a'
    else if a == 0x1060
    then 2
    else if a == 0x2000
    then 44
    else if a == 0x2001
    then 1
    else if a == 0x2004
    then 1
    else if leb 0x4000 a && ltb a 0x5000
    then 7
    else 0

abbrev pub disk : FileSystem
disk = record { boot_block_ptr = 0x1000; inode_ptr = 0x2000; data_block_ptr = 0x3000; file_idx = 0 }

abbrev pub idle_terminal : Terminal
idle_terminal = record {
  keyboard_buffer = λ i. 0;
  enter_pressed = 0;
  cursor_x = 0;
  cursor_y = 0;
  index = 0;
}

-- The page table maps every page to itself.
abbrev pub identity : Paging
identity = record {
  page_directory = λ i. zero_pde;
  page_table = λ i. record zero_pte { page_base_address = i };
  user_video_page_table = λ i. zero_pte;
  page_directory_addr = 0x401000;
  page_table_addr = 0x402000;
  user_video_page_table_addr = 0x403000;
  cr0 = 0;
  cr3 = 0;
  cr4 = 0;
}

abbrev pub console : Console
console = record {
  paging = identity;
  terminal = λ t. idle_terminal;
  cur_terminal = 0;
  run_terminal = 0;
  vmem = λ a. 0;
  ports = [];
}

abbrev pub keys : Keyboard
keys = record {
  console = console;
  ctrl_pressed = 0;
  shift_pressed = 0;
  capital = 0;
  caps_lock_pressed = 0;
  alt_pressed = 0;
}

abbrev pub clock : Rtc
clock = record { rtc_flag = 0; rtc_counter = 5; freq = λ t. 2; intr = λ t. 0; ports = [] }

abbrev pub free : FileDescriptor
free = record {
  file_operations_table_ptr = record {
    open_op = invalid;
    close_op = invalid;
    read_op = invalid;
    write_op = invalid;
  };
  inode = 0;
  file_position = 0;
  flags = 0;
}

-- A process with its standard descriptors in use.
abbrev pub process : Pcb
process = record {
  file_descriptor_array = λ i. if ltb i 2 then record free { flags = 1 } else free;
  parent_pid = 255;
  pid = 0;
  esp = 0;
  ebp = 0;
  run_ebp = 0;
  args = λ i. 0;
  signals = λ i. record { flag = 0; mask = 1; handler = kill };
}

abbrev pub kernel : System
kernel = record {
  keyboard = keys;
  clock = clock;
  file_system = disk;
  mem = image;
  pcb_at = λ a. process;
  pid_bitmap = λ i. 0;
  schedule = λ i. 2 ^ 32 - 1;
  user_pages = λ f a. 0;
  tss_ss0 = 0;
  tss_esp0 = 0;
  esp = 0x7FF000;
}
