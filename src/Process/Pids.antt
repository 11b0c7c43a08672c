-- ===== src/Process/Pids.antt =====
-- The process numbers and the table of the scheduler: what execute of mp3/student-distrib/system_calls.c
-- takes, what halt gives back, and the step of pit_handler in pit.c. The table holds int32_t
-- values, -1 for a terminal with no process.
pub mod Allocation
pub mod Places
pub mod Schedule
use ece_391_fall.Prelude.{
  ℕ, zero, suc, ◌+◌, ◌-◌, ◌*◌, ◌%◌, ◌^◌, Bool, ◌||◌, Option, none, some, ◌==◌, if◌then◌else◌,
  minus_one, add32, sub32, update,
}
use ece_391_fall.Process.{kernel_bottom_addr, get_pcb_ptr}

-- The loop of execute over `pid_bitmap` from `i` with `k` left.
unfoldable pub find_pid : ℕ → ℕ → (ℕ → ℕ) → Option ℕ
find_pid zero i bitmap = none
find_pid (suc k) i bitmap =
    let rest = find_pid k (i + 1) bitmap in if bitmap i == 0 then some i else rest

-- The new process number, and the bitmap in which it is taken.
unfoldable pub take_pid : (ℕ → ℕ) → Option ℕ × (ℕ → ℕ)
unfolding find_pid
take_pid bitmap = elim (find_pid 6 0 bitmap) [
  | none ↦ (none, bitmap)
  | some i ↦ (some i, update bitmap i 1)
]

-- `pid_bitmap[pid] = 0` of halt.
abbrev pub give_pid : ℕ → (ℕ → ℕ) → ℕ → ℕ
give_pid pid bitmap = update bitmap pid 0

-- The parent of a new process: the three shells have none.
unfoldable pub parent_of : ℕ → ℕ → ℕ
parent_of new_pid cur_pid = if new_pid == 0 || new_pid == 1 || new_pid == 2 then 255 else cur_pid

-- The loop of execute over the schedule from terminal `i` with `k` left.
pub start_from : ℕ → ℕ → ℕ → ℕ → (ℕ → ℕ) → ℕ → ℕ
start_from zero i parent pid schedule = schedule
start_from (suc k) i parent pid schedule =
    let rest = start_from k (i + 1) parent pid schedule in
    if schedule i == minus_one || schedule i == parent then update schedule i pid else rest

-- The loop of halt over the schedule.
pub finish_from : ℕ → ℕ → ℕ → ℕ → (ℕ → ℕ) → ℕ → ℕ
finish_from zero i parent pid schedule = schedule
finish_from (suc k) i parent pid schedule =
    finish_from k (i + 1) parent pid
      (if schedule i == pid then update schedule i parent else schedule)

-- `run_terminal = (run_terminal + 1) % 3` of pit_handler.
abbrev pub next_terminal : ℕ → ℕ
next_terminal t = (t + 1) % 3

-- `tss.esp0` as execute sets it, and as pit_handler does.
abbrev pub execute_esp0 : ℕ → ℕ
execute_esp0 pid = sub32 (sub32 kernel_bottom_addr ((pid * 0x2000) % 2 ^ 32)) 4

unfoldable pub pit_esp0 : ℕ → ℕ
unfolding get_pcb_ptr
pit_esp0 pid = sub32 (get_pcb_ptr (sub32 pid 1)) 4
