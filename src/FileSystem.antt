-- ===== src/FileSystem.antt =====
-- The read-only file system of mp3/student-distrib/filesystem.c, over the flat memory that holds
-- its image. A null pointer is the address 0; a copied directory entry is a record.
pub mod Lookup
pub mod ReadData
pub mod Sequential
pub mod Directory
use ece_391_fall.Prelude.{
  ℕ, zero, suc, ◌+◌, ◌-◌, ◌*◌, ◌/◌, ◌%◌, ◌^◌, Bool, ◌&&◌, ◌||◌, Option, none, some, List, ltb, leb,
  ◌==◌, if◌then◌else◌, add32, sub32, minus_one, slt,
}
use ece_391_fall.Memory.{Mem, load32, memcpy}
use ece_391_fall.Strings.{chars, strlen, strncmp}

abbrev pub block_size : ℕ
block_size = 4096

-- The file's static variables.
pub record FileSystem : Type 0 where
  pub boot_block_ptr : ℕ
  pub inode_ptr : ℕ
  pub data_block_ptr : ℕ
  pub file_idx : ℕ

-- `dentry_t`, without its reserved bytes.
pub record Dentry : Type 0 where
  pub file_name : ℕ → ℕ
  pub file_type : ℕ
  pub inode_num : ℕ

-- The fields of the boot block.
abbrev pub num_dir_entries : FileSystem → Mem → ℕ
num_dir_entries fs m = load32 m fs.boot_block_ptr

abbrev pub num_inodes : FileSystem → Mem → ℕ
num_inodes fs m = load32 m (fs.boot_block_ptr + 4)

-- `&boot_block_ptr->dir_entries[i]`.
abbrev pub dir_entry : FileSystem → ℕ → ℕ
dir_entry fs i = fs.boot_block_ptr + 64 + 64 * i

abbrev pub load_dentry : Mem → ℕ → Dentry
load_dentry m a = record {
  file_name = λ i. m (a + i);
  file_type = load32 m (a + 32);
  inode_num = load32 m (a + 36);
}

-- The fields of an index node, and the address of a data block.
abbrev pub inode_length : FileSystem → Mem → ℕ → ℕ
inode_length fs m inode = load32 m (fs.inode_ptr + 4096 * inode)

abbrev pub data_block_num : FileSystem → Mem → ℕ → ℕ → ℕ
data_block_num fs m inode i = load32 m (fs.inode_ptr + 4096 * inode + 4 + 4 * i)

abbrev pub data_block : FileSystem → Mem → ℕ → ℕ → ℕ
data_block fs m inode i = fs.data_block_ptr + 4096 * data_block_num fs m inode i

-- The loop over the directory entries, from entry `i` with `k` entries left.
pub find_dentry : ℕ → FileSystem → Mem → List ℕ → ℕ → Option Dentry
find_dentry zero fs m fname i = none
find_dentry (suc k) fs m fname i =
    let rest = find_dentry k fs m fname (i + 1) in
    if strncmp (chars fname) (λ j. m (dir_entry fs i + j)) 32 == 0
    then some (load_dentry m (dir_entry fs i))
    else rest

-- `none` for the result -1.
unfoldable pub read_dentry_by_name : FileSystem → Mem → Option (List ℕ) → Option Dentry
unfolding find_dentry strlen strncmp
read_dentry_by_name fs m none = none
read_dentry_by_name fs m (some fname) =
    if ltb 32 (strlen fname) then none else find_dentry (num_dir_entries fs m) fs m fname 0

unfoldable pub read_dentry_by_index : FileSystem → Mem → ℕ → Option Dentry
read_dentry_by_index fs m index =
    if leb (num_dir_entries fs m) index then none else some (load_dentry m (dir_entry fs index))

-- The number of bytes that the block loop copies from block `i`.
pub bytes_to_copy : ℕ → ℕ → ℕ → ℕ → ℕ → ℕ
bytes_to_copy start_data_block end_data_block start_offset end_offset i =
    if i == start_data_block && i == end_data_block
    then add32 (sub32 end_offset start_offset) 1
    else if i == start_data_block
    then sub32 block_size start_offset
    else if i == end_data_block
    then add32 end_offset 1
    else block_size

-- The block loop from block `i` with `k` blocks left; the result is `bytes_read` and the memory.
module _ (fs : FileSystem) (inode buf start_data_block end_data_block end_offset : ℕ) where
  pub copy_blocks : ℕ → Mem → ℕ → ℕ → ℕ → ℕ × Mem
  copy_blocks zero m start_offset bytes_read i = (bytes_read, m)
  copy_blocks (suc k) m start_offset bytes_read i =
      let n = bytes_to_copy start_data_block end_data_block start_offset end_offset i in
      copy_blocks k (memcpy m (buf + bytes_read) (data_block fs m inode i + start_offset) n) 0
        (add32 bytes_read n) (i + 1)

-- The length that is left of the file.
abbrev pub clamp_length : FileSystem → Mem → ℕ → ℕ → ℕ → ℕ
clamp_length fs m inode offset len =
    if ltb (inode_length fs m inode) (add32 offset len)
    then sub32 (inode_length fs m inode) offset
    else len

-- The part of read_data after its checks.
pub read_blocks : FileSystem → Mem → ℕ → ℕ → ℕ → ℕ → ℕ × Mem
unfolding copy_blocks
read_blocks fs m inode offset buf len =
    let last = sub32 (add32 offset len) 1 in
    copy_blocks fs inode buf (offset / block_size) (last / block_size) (last % block_size)
      (suc (last / block_size) - offset / block_size) m (offset % block_size) 0
      (offset / block_size)

unfoldable pub read_data : FileSystem → Mem → ℕ → ℕ → ℕ → ℕ → ℕ × Mem
unfolding read_blocks bytes_to_copy memcpy
read_data fs m inode offset buf len =
    if leb (num_inodes fs m) inode || buf == 0
    then (minus_one, m)
    else if leb (inode_length fs m inode) offset
    then (0, m)
    else read_blocks fs m inode offset buf (clamp_length fs m inode offset len)

unfoldable pub file_system_init : FileSystem → Mem → ℕ → FileSystem
file_system_init fs m fs_start_addr = record fs {
  boot_block_ptr = fs_start_addr;
  inode_ptr = fs_start_addr + 4096;
  data_block_ptr = fs_start_addr + 4096 + 4096 * load32 m (fs_start_addr + 4);
}

-- An entry of the wanted type under the name: the check that file_open and dir_open share.
abbrev pub has_type : ℕ → Option Dentry → Bool
has_type t none = Bool.false
has_type t (some d) = d.file_type == t

unfoldable pub file_open : FileSystem → Mem → Option (List ℕ) → ℕ
unfolding read_dentry_by_name
file_open fs m filename = if has_type 2 (read_dentry_by_name fs m filename) then 0 else minus_one

unfoldable pub file_close : ℕ → ℕ
file_close fd = 0

-- The inode and the position are those of the current process's descriptor `fd`.
unfoldable pub file_read : FileSystem → Mem → ℕ → ℕ → ℕ → ℕ → ℕ → ℕ × Mem
unfolding read_data
file_read fs m inode file_position fd buf nbytes =
    if slt fd 0 || slt 7 fd || buf == 0 || slt nbytes 0
    then (minus_one, m)
    else read_data fs m inode file_position buf nbytes

unfoldable pub file_write : ℕ → ℕ → ℕ → ℕ
file_write fd buf nbytes = minus_one

unfoldable pub dir_open : FileSystem → Mem → Option (List ℕ) → ℕ
unfolding read_dentry_by_name
dir_open fs m filename = if has_type 1 (read_dentry_by_name fs m filename) then 0 else minus_one

unfoldable pub dir_close : ℕ → ℕ
dir_close fd = 0

-- The entry is first copied into the local `dentry`, then its name into `buf`.
unfoldable pub dir_read : FileSystem → Mem → ℕ → ℕ → ℕ → ℕ × FileSystem × Mem
unfolding memcpy
dir_read fs m fd buf nbytes =
    if slt fd 0 || slt 7 fd || buf == 0 || slt nbytes 0
    then (minus_one, fs, m)
    else if ltb fs.file_idx (num_dir_entries fs m)
    then (
      32,
      record fs { file_idx = add32 fs.file_idx 1 },
      memcpy m buf (dir_entry fs fs.file_idx) 32,
    )
    else (0, record fs { file_idx = 0 }, m)

unfoldable pub dir_write : ℕ → ℕ → ℕ → ℕ
dir_write fd buf nbytes = minus_one

unfoldable pub get_length : FileSystem → Mem → ℕ → ℕ
get_length fs m inode = if leb (num_inodes fs m) inode then minus_one else inode_length fs m inode
