-- ===== src/World/Devices.antt =====
-- The typed commands install, inventory and use of mp2/world.c, and all the commands together.
use ece_391_fall.Prelude.{ℕ, Option, some, List, not, ◌&&◌, ◌||◌, ◌==◌, if◌then◌else◌, update}
use ece_391_fall.World.{
  World, allow_edit, discard_text, redraw_room, change_room, Outcome, car_open, car_fixed,
  lured_tux, swap_car, is_at, says, do_photo_swap, remove_object, insert_object_at,
  move_object_to_inventory, player_flag_is_set, player_set_flag,
}
use ece_391_fall.World.Rooms.{inventory, car_site, allerton, willard, cockpit, over_will, rem_lab}
use ece_391_fall.World.Things.{tux, batt_empty, batt_full, batt_car, fish, car_key, mimo_card}
use ece_391_fall.World.Moves.{reply, go_to}
use ece_391_fall.World.Moves.{try_to_move_left, try_to_enter, try_to_move_right}
use ece_391_fall.World.Tasks.{
  at_hand, typed_cmd_buy, typed_cmd_charge, typed_cmd_do, typed_cmd_drink, typed_cmd_fix,
  typed_cmd_flash, typed_cmd_sigh, typed_cmd_wear,
}
use ece_391_fall.World.Commands.{typed_cmd_drop, typed_cmd_get, typed_cmd_go}

unfoldable pub install_battery : ℕ → World → Outcome
unfolding remove_object player_set_flag
install_battery r w =
    if not (at_hand w batt_empty r) && not (at_hand w batt_full r)
    then reply "What battery?" discard_text r w
    else if not (r == car_site)
    then reply "Do you see the car?" discard_text r w
    else if at_hand w batt_empty r
    then reply "You want to install a dead battery?" discard_text r w
    else reply "Nice work!  Now you can use it!" change_room r
        (do_photo_swap r swap_car (player_set_flag car_fixed (remove_object batt_full w)))

unfoldable pub install_card : ℕ → World → Outcome
unfolding remove_object
install_card r w =
    if not (at_hand w mimo_card r)
    then reply "Do you have one of those?" discard_text r w
    else if not (r == cockpit)
    then reply "Nothing here needs that." discard_text r w
    else let w1 = remove_object mimo_card w in
      reply "Ready for takeoff, captain!" redraw_room r
        (record w1 { enter = update w1.enter cockpit (some over_will) })

unfoldable pub typed_cmd_install : ℕ → List ℕ → World → Outcome
unfolding says install_battery install_card
typed_cmd_install r arg w =
    if says "battery" arg
    then install_battery r w
    else if says "mimo" arg || says "card" arg || says "transmitter" arg
    then install_card r w
    else reply "What are you playing at?" allow_edit r w

unfoldable pub typed_cmd_inventory : ℕ → List ℕ → World → Outcome
typed_cmd_inventory r arg w =
    if r == inventory
    then record { action = change_room; place = w.enter r; world = w }
    else go_to inventory (record w { enter = update w.enter inventory (some r) })

unfoldable pub use_car : ℕ → World → Outcome
unfolding player_flag_is_set player_set_flag remove_object insert_object_at
use_car r w =
    if r == allerton
    then reply "Go to campus or Willard Airport?" discard_text r w
    else if r == willard
    then reply "Go to Allerton or campus?" discard_text r w
    else if not (r == car_site)
    then reply "You have a car?" discard_text r w
    else if player_flag_is_set car_fixed w
    then reply "Go to Allerton or Willard Airport?" discard_text r w
    else if player_flag_is_set car_open w
    then reply "You'll have to charge the battery." discard_text r w
    else if not (is_at w car_key inventory)
    then reply "Perhaps you can find a key?" discard_text r w
    else reply "The key works, but the battery's dead." change_room r (
        player_set_flag car_open (
          insert_object_at batt_car r 265 122 (remove_object car_key (do_photo_swap r swap_car w))))

unfoldable pub use_fish : ℕ → World → Outcome
unfolding player_set_flag remove_object move_object_to_inventory
use_fish r w =
    if not (at_hand w fish r)
    then reply "Using the invisible fish...no effect!" discard_text r w
    else if not (r == rem_lab)
    then reply "I don't think that's sanitary." discard_text r w
    else reply "Tux likes you!" redraw_room r
        (player_set_flag lured_tux (move_object_to_inventory tux (remove_object fish w)))

unfoldable pub typed_cmd_use : ℕ → List ℕ → World → Outcome
unfolding says use_car use_fish
typed_cmd_use r arg w =
    if says "car" arg
    then use_car r w
    else if says "fish" arg
    then use_fish r w
    else reply "You want to use what!?" allow_edit r w

-- The commands that the game can give.
pub data Deed : Type 0 where
  move_left enter_door move_right buy charge do_it drink drop fix flash get go install
        show_inventory sigh use_it wear :
      Deed

unfoldable pub perform : Deed → ℕ → List ℕ → World → Option Outcome
unfolding try_to_move_left try_to_enter try_to_move_right typed_cmd_buy typed_cmd_charge
    typed_cmd_do typed_cmd_drink typed_cmd_drop typed_cmd_fix typed_cmd_flash typed_cmd_get
    typed_cmd_go typed_cmd_install typed_cmd_inventory typed_cmd_sigh typed_cmd_use typed_cmd_wear
perform move_left r arg w = some (try_to_move_left r w)
perform enter_door r arg w = some (try_to_enter r w)
perform move_right r arg w = some (try_to_move_right r w)
perform buy r arg w = some (typed_cmd_buy r arg w)
perform charge r arg w = some (typed_cmd_charge r arg w)
perform do_it r arg w = some (typed_cmd_do r arg w)
perform drink r arg w = some (typed_cmd_drink r arg w)
perform drop r arg w = typed_cmd_drop r arg w
perform fix r arg w = some (typed_cmd_fix r arg w)
perform flash r arg w = some (typed_cmd_flash r arg w)
perform get r arg w = typed_cmd_get r arg w
perform go r arg w = some (typed_cmd_go r arg w)
perform install r arg w = some (typed_cmd_install r arg w)
perform show_inventory r arg w = some (typed_cmd_inventory r arg w)
perform sigh r arg w = some (typed_cmd_sigh r arg w)
perform use_it r arg w = some (typed_cmd_use r arg w)
perform wear r arg w = some (typed_cmd_wear r arg w)
