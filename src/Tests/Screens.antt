-- ===== src/Tests/Screens.antt =====
-- The theorems on paging, the screen, the keyboard and the terminal driver.
use ece_391_fall.Prelude.{ℕ, ◌/◌, ◌<◌, ◌≡◌, ◌≢◌, refl, arith, [], ◌∷◌, none, ◌==◌, if◌then◌else◌}
use ece_391_fall.Console.{Console, Terminal, memory_switch, putc, puts, blank_from}
use ece_391_fall.Console.Scroll.{blank_lem}
use ece_391_fall.Console.Mapping.{video_frame, IsMapped, putc-HomeBackspace, puts-IsMapped}
use ece_391_fall.Console.Screen.{OnScreen, putc-isolated}
use ece_391_fall.Keyboard.{Keyboard, keyboard_handler, switch_terminal}
use ece_391_fall.Keyboard.Switch.{screen, switch_terminal_lem}
use ece_391_fall.Keyboard.Buffer.{Safe, keyboard_handler-Safe, enter-fault}
use ece_391_fall.Tests.Images.{identity, console, keys, idle_terminal}

blank_lem_example : blank_from 2000 identity.page_table 0 (λ a. a) 0xB8002 ≡ b' '
blank_lem_example = blank_lem identity.page_table 0xB8 (λ a. a) 0xB8002 refl

-- Terminal 1 runs while terminal 0 is displayed.
abbrev background : Console
background = memory_switch 1 (record console { run_terminal = 1 })

putc-HomeBackspace_example :
    (video_frame (putc 8 1 background) ≡ 0xB8) × ¬ IsMapped (putc 8 1 background)
unfolding memory_switch
putc-HomeBackspace_example =
    putc-HomeBackspace 8 1 background (omega arith, omega arith) (refl, refl, refl, refl)
      (λ e. omega (arith, e))

puts-IsMapped_example : IsMapped (puts (b'h' ∷ b'i' ∷ []) 0 console).1
puts-IsMapped_example = puts-IsMapped (b'h' ∷ b'i' ∷ []) 0 console (omega arith, omega arith) refl

putc-isolated_example :
    ((a : ℕ) → a / 4096 ≢ 0xB8 → (putc b'x' 0 console).vmem a ≡ console.vmem a)
    × ((t : ℕ) → OnScreen ((putc b'x' 0 console).terminal t))
putc-isolated_example =
    putc-isolated b'x' 0 console (omega arith) (omega arith, omega arith) refl
      (λ t. (omega arith, omega arith))

switch_terminal_lem_example :
    let s' = switch_terminal 2 console in
    ((t off : ℕ) → t < 3 → off < 4096 → screen s' t off ≡ screen console t off)
    × (s'.cur_terminal ≡ 2)
    × (s'.run_terminal ≡ 0)
    × (s'.terminal ≡ console.terminal)
    × IsMapped s'
switch_terminal_lem_example =
    switch_terminal_lem 2 console (omega arith) (omega arith, omega arith) (λ t h. refl) refl

keyboard_handler-Safe_example : Safe (keyboard_handler 0x1E keys)
keyboard_handler-Safe_example = keyboard_handler-Safe 0x1E keys (λ t. omega arith)

-- Enter has been pressed in a full buffer, and nobody reads.
abbrev full_terminal : Terminal
full_terminal = record idle_terminal { index = 128; enter_pressed = 1 }

abbrev full_keys : Keyboard
full_keys = record keys { console = record console { terminal = λ t. full_terminal } }

enter-fault_example : keyboard_handler 0x1C full_keys ≡ none
enter-fault_example = enter-fault full_keys (omega arith) refl refl refl

-- The line "k" and a new line.
abbrev line : ℕ → ℕ
line i = if i == 0 then b'k' else if i == 1 then b'\n' else 0
