-- ===== src/Tests/Processes.antt =====
-- The theorems on processes.
use ece_391_fall.Prelude.{
  ℕ, ◌≡◌, ◌≢◌, refl, arith, List, [], ◌∷◌, Option, some, if◌then◌else◌, ◌==◌,
}
use ece_391_fall.FileSystem.{Dentry, load_dentry, read_dentry_by_name}
use ece_391_fall.Process.{System, file, get_pcb_ptr, get_pid, get_cur_pcb_ptr, cur_pcb, descriptor}
use ece_391_fall.Process.Blocks.{get_cur_pcb_ptr_lem}
use ece_391_fall.Process.SystemCalls.{open_file, close_file, driver_of_type}
use ece_391_fall.Process.SystemCalls.Descriptors.{
  FirstFree, IsFresh, open_file-IsFresh, open_file-close_file,
}
use ece_391_fall.Process.Command.{command, parse_command, parse_command_lem}
use ece_391_fall.Tests.Images.{image, disk, free, process, kernel}

get_cur_pcb_ptr_lem_example : (get_pid 0x7FD000 ≡ 1) × (get_cur_pcb_ptr 0x7FD000 ≡ get_pcb_ptr 1)
unfolding get_pcb_ptr
get_cur_pcb_ptr_lem_example =
    get_cur_pcb_ptr_lem 1 0x7FD000 (omega arith) (omega arith) (omega arith)

abbrev letter_a : Option (List ℕ)
letter_a = some (b'a' ∷ [])

abbrev entry : Dentry
entry = load_dentry image 0x1040

entry_found : read_dentry_by_name disk image letter_a ≡ some entry
unfolding read_dentry_by_name
entry_found = refl

entry_typed : driver_of_type entry.file_type ≡ some file
unfolding driver_of_type
entry_typed = refl

free_two : FirstFree (cur_pcb kernel).file_descriptor_array 2
free_two = (refl, λ j h e. ground (arith, h, e))

open_file-IsFresh_example :
    ((open_file letter_a kernel).0 ≡ 2)
    × IsFresh file entry.inode_num (descriptor (open_file letter_a kernel).1 2)
    × ((j : ℕ) → j ≢ 2 → descriptor (open_file letter_a kernel).1 j ≡ descriptor kernel j)
open_file-IsFresh_example =
    open_file-IsFresh letter_a kernel entry file 2 entry_found refl (omega arith) free_two

-- All eight descriptors are in use.
abbrev busy : System
busy = record kernel {
  pcb_at = λ a. record process { file_descriptor_array = λ i. record free { flags = 1 } };
}

open_file-close_file_example :
    let after = close_file (open_file letter_a kernel).0 (open_file letter_a kernel).1 in
    (after.0 ≡ 0) × FirstFree (cur_pcb after.1).file_descriptor_array 2
open_file-close_file_example =
    open_file-close_file letter_a kernel entry file 2 entry_found entry_typed (omega arith)
      (omega arith) free_two

parse_command_lem_example :
    parse_command (b' ' ∷ b'l' ∷ b's' ∷ b' ' ∷ b'x' ∷ []) ≡ command (b'l' ∷ b's' ∷ []) (b'x' ∷ [])
parse_command_lem_example =
    parse_command_lem 1 0 b'l' (b's' ∷ []) b'x' []
      (λ e. omega (arith, e), (λ e. omega (arith, e), refl)) (λ e. omega (arith, e), refl)
      (omega arith) (omega arith)

-- Terminal 1 runs process 3, and the others 0 and 2.
abbrev running : ℕ → ℕ
running i = if i == 1 then 3 else if i == 0 then 0 else 2
