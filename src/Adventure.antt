-- ===== src/Adventure.antt =====
-- The game of mp2/adventure.c: typed commands, the motion of the view over a room's photo, and what
-- the game loop does with one input. Threads, time and set-up are not part of it. The functions
-- that fill a line of the picture are those that the screen has, whatever the room.
mod Commands
pub mod Verbs
pub mod Views
pub mod Typed
use Prim.Native.String.{String}
use ece_391_fall.Prelude.{
  ℕ, zero, suc, ◌+◌, ◌-◌, Option, none, some, List, [], ◌∷◌, Bool, true, false, not, ◌&&◌, ltb, leb,
  ◌==◌, if◌then◌else◌, add32, sub32, slt,
}
use ece_391_fall.Strings.Buffers.{codes}
use ece_391_fall.ModeX.{
  ModeX, scroll_x_dim, scroll_y_dim, draw_vert_line, draw_horiz_line, set_view_window,
}
use ece_391_fall.Input.{
  Input, reset_typed_command, Cmd, cmd_up, cmd_right, cmd_down, cmd_left, cmd_move_left, cmd_enter,
  cmd_move_right, cmd_typed,
}
use ece_391_fall.World.Moves.{try_to_move_left, try_to_enter, try_to_move_right}
use ece_391_fall.World.{
  World, Outcome, Action, allow_edit, discard_text, redraw_room, change_room, lower, show_status,
  player_has_board, player_has_jetpack,
}
use ece_391_fall.World.Devices.{
  Deed, buy, charge, do_it, drink, drop, fix, flash, get, go, install, show_inventory, sigh, use_it,
  wear, perform,
}
use ece_391_fall.World.Build.{start_in_room}
unfoldable pub use ece_391_fall.Adventure.Commands.*

abbrev pub motion_speed : ℕ
motion_speed = 2

-- game_info_t, `enter_room`, and the parts of the program that the game drives. `where_at` is none
-- for a NULL room.
pub record Game : Type 0 where
  pub where_at : Option ℕ
  pub map_x : ℕ
  pub map_y : ℕ
  pub x_speed : ℕ
  pub y_speed : ℕ
  pub enter_room : Bool
  pub world : World
  pub screen : ModeX
  pub input : Input

unfoldable pub init_game : Game → Game
init_game g = record g {
  where_at = some start_in_room;
  map_x = 0;
  map_y = 0;
  x_speed = motion_speed;
  y_speed = motion_speed;
}

-- Rows `idx` to `idx + k - 1`, and columns from the left.
pub draw_rows : ℕ → ℕ → ModeX → ModeX
draw_rows zero idx s = s
draw_rows (suc k) idx s = draw_rows k (idx + 1) (draw_horiz_line idx s).1

pub draw_columns : ℕ → ℕ → ModeX → ModeX
draw_columns zero idx s = s
draw_columns (suc k) idx s = draw_columns k (idx + 1) (draw_vert_line idx s).1

-- The loops `for (idx = 1; delta >= idx; idx++)` from the bottom and from the right.
pub draw_rows_up : ℕ → ℕ → ModeX → ModeX
draw_rows_up zero idx s = s
draw_rows_up (suc k) idx s = draw_rows_up k (idx + 1) (draw_horiz_line (scroll_y_dim - idx) s).1

pub draw_columns_back : ℕ → ℕ → ModeX → ModeX
draw_columns_back zero idx s = s
draw_columns_back (suc k) idx s =
    draw_columns_back k (idx + 1) (draw_vert_line (scroll_x_dim - idx) s).1

-- The rounds of a loop up to an int32_t.
abbrev pub rounds : ℕ → ℕ
rounds delta = if slt delta 0 then 0 else delta

unfoldable pub redraw : Game → Game
unfolding draw_rows
redraw g = record g { screen = draw_rows scroll_y_dim 0 g.screen }

-- `speed > map ? map : speed`, and `speed > delta ? delta : speed` with an int32_t delta.
abbrev pub step_back : ℕ → ℕ → ℕ
step_back speed map = if ltb map speed then map else speed

abbrev pub step_on : ℕ → ℕ → ℕ
step_on speed delta = if slt delta speed then delta else speed

unfoldable pub move_photo_down : Game → Game
unfolding draw_rows
move_photo_down g =
    let delta = step_back g.y_speed g.map_y in
    let y = sub32 g.map_y delta in
    record g { map_y = y; screen = draw_rows delta 0 (set_view_window g.map_x y g.screen) }

unfoldable pub move_photo_right : Game → Game
unfolding draw_columns
move_photo_right g =
    let delta = step_back g.x_speed g.map_x in
    let x = sub32 g.map_x delta in
    record g { map_x = x; screen = draw_columns delta 0 (set_view_window x g.map_y g.screen) }

-- The room is the one that `game_info.where` points to.
unfoldable pub move_photo_left : ℕ → Game → Game
unfolding draw_columns_back
move_photo_left r g =
    let width = (g.world.photo_size (g.world.view r)).0 in
    let delta = step_on g.x_speed (sub32 (sub32 width scroll_x_dim) g.map_x) in
    let x = add32 g.map_x delta in
    record g {
      map_x = x;
      screen = draw_columns_back (rounds delta) 1 (set_view_window x g.map_y g.screen);
    }

unfoldable pub move_photo_up : ℕ → Game → Game
unfolding draw_rows_up
move_photo_up r g =
    let height = (g.world.photo_size (g.world.view r)).1 in
    let delta = step_on g.y_speed (sub32 (sub32 height scroll_y_dim) g.map_y) in
    let y = add32 g.map_y delta in
    record g {
      map_y = y;
      screen = draw_rows_up (rounds delta) 1 (set_view_window g.map_x y g.screen);
    }

-- The speeds after a typed command.
unfoldable pub adjust_speeds : Deed → Game → Game
unfolding player_has_board player_has_jetpack
adjust_speeds drop g = record g {
  x_speed = if not (player_has_board g.world) then motion_speed else g.x_speed;
  y_speed = if not (player_has_jetpack g.world) then motion_speed else g.y_speed;
}
adjust_speeds get g = record g {
  x_speed = if player_has_board g.world then 6 else g.x_speed;
  y_speed = if player_has_jetpack g.world then 6 else g.y_speed;
}
adjust_speeds deed g = g

-- What handle_typing does with the command's result; 1 when the room changed.
unfoldable pub handle_result : Action → Game → Bool × Game
unfolding redraw
handle_result change_room g = (true, g)
handle_result allow_edit g = (false, g)
handle_result discard_text g = (false, record g { input = reset_typed_command g.input })
handle_result redraw_room g = (false, redraw (record g { input = reset_typed_command g.input }))

-- handle_typing in room r; none when a command uses a NULL room.
unfoldable pub handle_typing : ℕ → Game → Option (Bool × Game)
unfolding strip_spaces verb_length behind find_command perform adjust_speeds handle_result
handle_typing r g = elim (strip_spaces g.input.typing) [
  | [] ↦ some (false, g)
  | c ∷ cs ↦
      let cmd_len = verb_length (c ∷ cs) in
      elim (find_command cmd_list (c ∷ cs) cmd_len) [
        | none ↦
            some (false, record g { world = show_status "What are you babbling about?" g.world })
        | some deed ↦ elim (perform deed r (strip_spaces (behind cmd_len (c ∷ cs))) g.world) [
          | none ↦ none
          | some out ↦ some (
              handle_result out.action
                (adjust_speeds deed (record g { where_at = out.place; world = out.world })))
        ]
      ]
]

unfoldable pub is_change : Action → Bool
is_change change_room = true
is_change allow_edit = false
is_change discard_text = false
is_change redraw_room = false

-- A move between rooms by a button.
abbrev pub moved_by : Outcome → Game → Game
moved_by out g = record g {
  where_at = out.place;
  world = out.world;
  enter_room = is_change out.action;
}

-- The commands of the game loop but quit, and of the thread for the Tux controller, in room r.
unfoldable pub handle_cmd : Cmd → ℕ → Game → Option Game
unfolding move_photo_down move_photo_left move_photo_up move_photo_right try_to_move_left
    try_to_enter try_to_move_right handle_typing
handle_cmd cmd_up r g = some (move_photo_down g)
handle_cmd cmd_right r g = some (move_photo_left r g)
handle_cmd cmd_down r g = some (move_photo_up r g)
handle_cmd cmd_left r g = some (move_photo_right g)
handle_cmd cmd_move_left r g = some (moved_by (try_to_move_left r g.world) g)
handle_cmd cmd_enter r g = some (moved_by (try_to_enter r g.world) g)
handle_cmd cmd_move_right r g = some (moved_by (try_to_move_right r g.world) g)
handle_cmd cmd_typed r g = elim (handle_typing r g) [
  | none ↦ none
  | some (entered, g') ↦ some (if entered then record g' { enter_room = true } else g')
]
handle_cmd cmd r g = some g

-- What the game loop does first after the room changed. prep_room, which sets the palette and
-- the photo of the room, is left out.
unfoldable pub show_room : Game → Game
unfolding redraw
show_room g =
    if g.enter_room
    then (let drawn = redraw (record g {
      map_x = 0;
      map_y = 0;
      screen = set_view_window 0 0 g.screen;
      input = reset_typed_command g.input;
    }) in
        record drawn { enter_room = false })
    else g
