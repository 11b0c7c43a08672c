-- ===== src/Tests/Switches.antt =====
-- The theorems on starting, ending and switching processes.
use ece_391_fall.Prelude.{ℕ, ◌<◌, ◌≡◌, ◌≢◌, refl, arith, some, ◌==◌, if◌then◌else◌, update}
use ece_391_fall.Memory.{store}
use ece_391_fall.Paging.{set_pde}
use ece_391_fall.Process.{System, get_pcb_ptr}
use ece_391_fall.Process.Pids.{take_pid}
use ece_391_fall.Process.Pages.{map_user, map_user-isolated}
use ece_391_fall.Process.Switching
use ece_391_fall.Process.Switching.{halt}
use ece_391_fall.Process.Switching.Halting.{Halted, halt-Halted}
use ece_391_fall.Process.Switching.Turns.{
  turn_at, and_then, OnStack, Leaves, Back, pit_handler-Back,
}
use ece_391_fall.Process.Tree.{booted, started, execute, boot, step}
use ece_391_fall.Process.Tree.Invariant.{Reach-scheduled}
use ece_391_fall.Tests.Images.{console, keys, process, kernel}

-- Process 1 runs; its page stands at the user addresses.
abbrev mapped : System
mapped = record kernel {
  keyboard = record keys {
    console = record console {
      paging = record (console.paging) {
        page_directory = set_pde console.paging.page_directory 32 0xC00 1 0 1;
      };
    };
  };
}

mapped_one : (mapped.keyboard.console.paging.page_directory 32).page_table_base_address ≡ 0xC00
unfolding set_pde
mapped_one = refl

map_user-isolated_example :
    (map_user 1 (record (map_user 4 mapped) { mem = λ a. 5 })).mem 0x8048000 ≡ mapped.mem 0x8048000
map_user-isolated_example =
    map_user-isolated 1 4 mapped (λ a. 5) 0x8048000 (omega arith) (omega arith)
      (λ e. omega (arith, e)) mapped_one (omega arith, omega arith)

-- The file "a" begins with the four bytes of a program.
abbrev with_file : System
with_file = record kernel {
  mem = λ a.
      if a == 0x4000
      then 0x7f
      else if a == 0x4001
      then 0x45
      else if a == 0x4002
      then 0x4c
      else if a == 0x4003
      then 0x46
      else kernel.mem a;
}

-- Process 4, whose parent is 1.
abbrev nested : System
nested = record kernel { pcb_at = λ a. record process { pid = 4; parent_pid = 1 } }

halt-Halted_example : Halted 3 nested (halt (λ i. 0) 0x9000 0x7FE000 3 nested)
halt-Halted_example = halt-Halted (λ i. 0) 0x9000 0x7FE000 3 nested (omega arith)

-- Terminal 1 has executed a program.
abbrev with_program : ℕ → ℕ
with_program = update booted.bitmap 3 1

took_three : take_pid booted.bitmap ≡ (some 3, with_program)
unfolding take_pid
took_three = refl

Reach-scheduled_example :
    let s = started 1 3 with_program booted in
    ((t : ℕ) → t < 3 → (s.schedule t < 6) × (s.bitmap (s.schedule t) ≢ 0))
    × ((t u : ℕ) → t < 3 → u < 3 → t ≢ u → s.schedule t ≢ s.schedule u)
Reach-scheduled_example =
    Reach-scheduled (step boot (execute 1 3 with_program (omega arith) took_three))

-- The three shells.
abbrev shells : System
shells = record kernel { schedule = λ t. t }

-- A turn in which memory is written.
abbrev busy : System → System
busy s = record s { mem = store s.mem 0x8048000 7 }

busy-Leaves : Leaves 0 busy
unfolding Leaves
busy-Leaves s = (refl, refl, refl)

on_stack : OnStack 0 0x7FF000 × OnStack 1 0x7FD000 × OnStack 2 0x7FB000
unfolding OnStack get_pcb_ptr
on_stack = ((omega arith, omega arith), (omega arith, omega arith), (omega arith, omega arith))

pit_handler-Back_example : Back 0 0x7FF100 (
    and_then (turn_at (λ i. 0) 0x9000 0x7FF000 0x7FF100 shells) (λ s1.
      and_then
        (turn_at (λ i. 0) 0x9000 0x7FD000 0x7FD100 (busy s1))
        (λ s2. turn_at (λ i. 0) 0x9000 0x7FB000 0x7FB100 (busy s2))))
pit_handler-Back_example =
    pit_handler-Back (λ i. 0) 0x9000 0 1 2 0x7FF000 0x7FF100 0x7FD000 0x7FD100 0x7FB000 0x7FB100
      busy busy shells (omega arith) (omega arith) (omega arith) (λ e. omega (arith, e))
      (λ e. omega (arith, e)) (omega arith) refl refl refl on_stack.0 on_stack.1 on_stack.2
      busy-Leaves busy-Leaves
