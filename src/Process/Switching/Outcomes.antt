-- ===== src/Process/Switching/Outcomes.antt =====
-- What execute of mp3/student-distrib/system_calls.c may come to, told without its loops: the process that is
-- started, its place in the tables, and the reasons to fail.
use ece_391_fall.Prelude.{
  ℕ, ◌+◌, ◌-◌, ◌*◌, ◌<◌, ◌≤◌, ◌≡◌, ◌≢◌, ◌⊎◌, true, List, Option, none, some, ◌==◌, if◌then◌else◌,
  minus_one,
}
use ece_391_fall.Memory.{Mem}
use ece_391_fall.FileSystem.{Dentry, read_dentry_by_name, read_data}
use ece_391_fall.Process.{System, get_pid}
use ece_391_fall.Process.Command.{command, parse_command}
use ece_391_fall.Process.Command.Overrun.{Overruns, Unusable}
use ece_391_fall.Process.Pids.Allocation.{AllTaken}
use ece_391_fall.Process.Pids.Places.{TakesPlace}
use ece_391_fall.Process.Pages.{mapped_frame}
use ece_391_fall.Process.Switching.{Switch, returns, enters, resumes, continues, fault}

-- The parent of a new process with number `pid`, if process `caller` executes it.
abbrev pub IsParent : ℕ → ℕ → ℕ → Type 0
IsParent pid caller parent = ((pid < 3) × (parent ≡ 255)) ⊎ ((3 ≤ pid) × (parent ≡ caller))

-- The file has fewer than 40 bytes or does not begin with 0x7F and the letters ELF.
abbrev pub NoProgram : ℕ → ℕ × Mem → Type 0
NoProgram header (n, m) =
    (n ≢ 40)
    ⊎ ¬ (
        (m header ≡ 0x7f)
        × (m (header + 1) ≡ b'E')
        × (m (header + 2) ≡ b'L')
        × (m (header + 3) ≡ b'F'))

-- Why a file is not started.
abbrev pub Unfit : ℕ → Option Dentry → System → Type 0
Unfit header none s = true ≡ true
Unfit header (some d) s =
    NoProgram header (read_data s.file_system s.mem d.inode_num 0 header 40) ⊎ AllTaken s.pid_bitmap

-- Why execute fails.
abbrev pub Refused : ℕ → Option (List ℕ) → System → Type 0
Refused header none s = true ≡ true
Refused header (some line) s =
    Unusable line
    ⊎ ((name : List ℕ) × (args : List ℕ) × (parse_command line ≡ command name args)
        × Unfit header (read_dentry_by_name s.file_system s.mem (some name)) s)

-- A store of the parsing is outside an array.
abbrev pub Overrun : Option (List ℕ) → Type 0
Overrun none = ⊥
Overrun (some line) = Overruns line

-- The tables after process `pid` with that parent has been started.
abbrev pub Started : ℕ → ℕ → System → System → Type 0
Started pid parent s s' =
    let p = s'.pcb_at (0x7FE000 - pid * 0x2000) in
    ((i : ℕ) → s'.pid_bitmap i ≡ (if pid == i then 1 else s.pid_bitmap i))
    × TakesPlace parent pid s.schedule s'.schedule
    × (p.pid ≡ pid)
    × (p.parent_pid ≡ parent)
    × (p.esp ≡ s.esp)
    × (mapped_frame s' ≡ 0x800 + pid * 0x400)
    × (s'.tss_esp0 ≡ 0x7FFFFC - pid * 0x2000)

-- What execute of a command line comes to.
unfoldable pub Executed : ℕ → Option (List ℕ) → System → Switch → Type 0
Executed header line s (returns v s') =
    (v ≡ minus_one)
    × Refused header line s
    × (s'.pid_bitmap ≡ s.pid_bitmap)
    × (s'.schedule ≡ s.schedule)
    × (s'.pcb_at ≡ s.pcb_at)
Executed header line s (enters entry s') =
    (pid : ℕ) × (parent : ℕ) × (pid < 6)
    × (s.pid_bitmap pid ≡ 0)
    × ((i : ℕ) → i < pid → s.pid_bitmap i ≢ 0)
    × IsParent pid (get_pid s.esp) parent
    × Started pid parent s s'
Executed header line s (resumes v ebp esp s') = ⊥
Executed header line s (continues ebp s') = ⊥
Executed header line s fault = Overrun line
