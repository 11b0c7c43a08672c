-- ===== src/Tests/Game.antt =====
-- The theorems on the scrolling view and the Tux controller.
use ece_391_fall.Prelude.{ℕ, ◌+◌, ◌≤◌, ◌≡◌, ◌⊎◌, refl, arith, [], ◌∷◌, some, none, true}
use ece_391_fall.ModeX.{ModeX, draw_horiz_line, show_screen, set_view_window}
use ece_391_fall.ModeX.Show.{IsWindow, cell, displayed}
use ece_391_fall.ModeX.Rows.{draw_horiz_line-displayed}
use ece_391_fall.ModeX.Window.{IsPlaced, Inside, set_view_window-Inside}
use ece_391_fall.ModeX.Moves.{set_view_window-keeps}
use ece_391_fall.Input.{Input, get_command}
use ece_391_fall.Input.Typing.{Fits, get_command-Fits}
use ece_391_fall.Tux.{Tux, set_led, led_bytes, tux_set_led}
use ece_391_fall.Tux.Flow.{packet, call, run, led_packets, acks, run-led_packets}
use ece_391_fall.Tux.Leds.{shows, byte_for, unpointed, tux_set_led-shows, byte_for-unpointed}

-- The view as set_mode_X leaves it; lines are drawn in their coordinates.
abbrev pub view : ModeX
view = record {
  build = λ a. 0;
  img3_off = 10000;
  img3 = 10256;
  show_x = 0;
  show_y = 0;
  target_img = 0;
  horiz_line_fn = λ x y i. y;
  vert_line_fn = λ x y j. x;
  mem_image = λ p a. 0;
  write_mask = 0;
  ports = [];
}

view-IsWindow : IsWindow view
unfolding IsWindow
view-IsWindow = (omega arith, omega arith, omega arith)

view-IsPlaced : IsPlaced view
unfolding IsPlaced
view-IsPlaced = (refl, omega arith, omega arith)

view-Inside : Inside view
unfolding set_view_window
view-Inside = (set_view_window-Inside 0 0 view (omega arith, omega arith) view-IsPlaced).1

draw_horiz_line-displayed_example : displayed (show_screen (draw_horiz_line 7 view).1) 33 7 ≡ 7
draw_horiz_line-displayed_example =
    draw_horiz_line-displayed 7 33 7 view (omega arith) (omega arith) (omega arith) view-IsWindow

set_view_window-Inside_example :
    IsPlaced (set_view_window 500 700 view) × Inside (set_view_window 500 700 view)
set_view_window-Inside_example =
    set_view_window-Inside 500 700 view (omega arith, omega arith) view-IsPlaced

set_view_window-keeps_example :
    (set_view_window 1 150 view).build (cell (set_view_window 1 150 view) (1 + 5) (150 + 9))
    ≡ view.build (cell view 6 159)
set_view_window-keeps_example =
    set_view_window-keeps 1 150 5 9 view (omega arith, omega arith) (omega arith, omega arith)
      view-Inside (omega arith) (omega arith) (omega arith) (omega arith) (omega arith)
      (omega arith)

abbrev controller : Tux
controller = record { ack = 1; button = 0; led = 0; sent = [] }

run-led_packets_example :
    led_packets
      (run
        (call 0 set_led 0x000F1234 ∷ call 0 set_led 0x000F4321 ∷ packet 0x40 0 0 ∷ [])
        controller).sent
    ≤ acks (call 0 set_led 0x000F1234 ∷ call 0 set_led 0x000F4321 ∷ packet 0x40 0 0 ∷ [])
      + led_packets controller.sent
      + 1
run-led_packets_example =
    run-led_packets (call 0 set_led 0x000F1234 ∷ call 0 set_led 0x000F4321 ∷ packet 0x40 0 0 ∷ [])
      controller

tux_set_led-shows_example : shows (tux_set_led 0x000F1234 controller).sent 2 ≡ some 2
tux_set_led-shows_example =
    tux_set_led-shows 0x000F1234 2 controller (λ e. omega (arith, e)) refl (omega arith)

byte_for-unpointed_example :
    (byte_for 4 0 15 (led_bytes 4 0 15 15 0x1234) 1 ≡ none)
    ⊎ ((byte : ℕ) × (byte_for 4 0 15 (led_bytes 4 0 15 15 0x1234) 1 ≡ some byte)
        × (unpointed byte ≡ true))
byte_for-unpointed_example = byte_for-unpointed 4 0 15 15 0x1234 1 (omega arith) (omega arith)

abbrev nothing_typed : Input
nothing_typed = record { typing = []; state = 0 }

get_command-Fits_example :
    Fits
      ((get_command (27 ∷ 91 ∷ b'A' ∷ b'g' ∷ b'e' ∷ b't' ∷ 127 ∷ 10 ∷ []) nothing_typed).1).typing
get_command-Fits_example =
    get_command-Fits (27 ∷ 91 ∷ b'A' ∷ b'g' ∷ b'e' ∷ b't' ∷ 127 ∷ 10 ∷ []) nothing_typed
      (omega arith)
