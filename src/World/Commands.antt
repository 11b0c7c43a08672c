-- ===== src/World/Commands.antt =====
-- The typed commands of mp2/world.c that move the player or any object: drop, get, go, install,
-- inventory and use, and all commands together. A command that uses a NULL room is none.
use ece_391_fall.Prelude.{ℕ, Option, none, some, List, not, ◌&&◌, ◌||◌, ◌==◌, if◌then◌else◌}
use ece_391_fall.World.{
  World, allow_edit, discard_text, redraw_room, Outcome, has_eaten, car_open, car_fixed, lured_tux,
  is_null, is_at, show_status, says, find_in_room, remove_object, insert_object,
  move_object_to_inventory, player_flag_is_set,
}
use ece_391_fall.World.Rooms.{inventory, reserve, car_site, allerton, willard, rem_plane}
use ece_391_fall.World.Things.{
  tux, book_c, book_wode, gps_bad, gps_good, batt_empty, batt_full, batt_car, mimo_card,
}
use ece_391_fall.World.Moves.{reply, go_to}

-- The room in which the player stands, also while the inventory is shown.
abbrev pub standing : ℕ → World → Option ℕ
standing r w = if r == inventory then w.enter inventory else some r

abbrev stay_and_redraw : ℕ → World → Outcome
stay_and_redraw r w = record { action = redraw_room; place = some r; world = w }

-- The hint of typed_cmd_drop.
abbrev pub hint : ℕ → ℕ → World → World
hint obj r w =
    if (obj == batt_full && r == car_site) || (obj == mimo_card && r == rem_plane)
    then show_status "You may want to install it instead." w
    else w

unfoldable pub typed_cmd_drop : ℕ → List ℕ → World → Option Outcome
unfolding find_in_room insert_object
typed_cmd_drop r arg w = elim (find_in_room inventory arg w) [
  | none ↦ some (reply "You have no such thing." allow_edit r w)
  | some obj ↦ elim (standing r w) [
    | none ↦ none
    | some dest ↦ some (stay_and_redraw r (insert_object obj dest (hint obj r w)))
  ]
]

-- The car battery.
unfoldable pub battery_get : ℕ → World → Option ℕ × World
unfolding remove_object
battery_get r w =
    if r == car_site && is_at w batt_car r
    then (some batt_empty, remove_object batt_car w)
    else (none, w)

-- Its object, with the world after it.
unfoldable pub obj_special_get : ℕ → List ℕ → World → Option ℕ × World
unfolding says player_flag_is_set battery_get
obj_special_get r arg w =
    if r == reserve && says "book" arg
    then (if player_flag_is_set has_eaten w
        then (if is_null (w.loc book_c)
            then (some book_c, show_status "You check out the C book." w)
            else battery_get r w)
        else (if is_null (w.loc book_wode)
            then (some book_wode, show_status "Here's a nice Wodehouse collection." w)
            else battery_get r w))
    else battery_get r w

-- What typed_cmd_get does with the object that it found.
unfoldable pub take_object : ℕ → ℕ → World → Outcome
unfolding player_flag_is_set move_object_to_inventory
take_object obj r w =
    if obj == tux && not (player_flag_is_set lured_tux w)
    then reply "Tux must choose you!  Try using a fish." discard_text r w
    else stay_and_redraw r (move_object_to_inventory obj w)

unfoldable pub get_from : ℕ → List ℕ → ℕ → World → Outcome
unfolding obj_special_get find_in_room take_object
get_from src arg r w =
    let (special, w1) = obj_special_get src arg w in
    elim special [
      | some obj ↦ take_object obj r w1
      | none ↦ elim (find_in_room src arg w1) [
        | some obj ↦ take_object obj r w1
        | none ↦ reply "You see no such thing here." allow_edit r w1
      ]
    ]

unfoldable pub typed_cmd_get : ℕ → List ℕ → World → Option Outcome
unfolding get_from
typed_cmd_get r arg w = elim (standing r w) [ none ↦ none | some src ↦ some (get_from src arg r w) ]

-- The answer of typed_cmd_go while the car is not fixed.
abbrev pub no_car : ℕ → World → Outcome
unfolding player_flag_is_set
no_car r w =
    if player_flag_is_set car_open w
    then reply "The car isn't working." discard_text r w
    else reply "Do you want to use that car?" discard_text r w

unfoldable pub go_allerton : ℕ → World → Outcome
unfolding player_flag_is_set
go_allerton r w =
    if r == allerton
    then reply "Kazam!  You're at Allerton!" discard_text r w
    else if not (r == willard) && not (r == car_site)
    then reply "That's quite a hike." discard_text r w
    else if not (player_flag_is_set car_fixed w)
    then no_car r w
    else if not (is_at w gps_good inventory)
    then (if is_at w gps_bad inventory
        then reply "That's a long road with a broken GPS." discard_text r w
        else reply "You'll need a GPS to find that place." discard_text r w)
    else go_to allerton (show_status "You drive to Allerton Park." w)

unfoldable pub go_willard : ℕ → World → Outcome
unfolding player_flag_is_set
go_willard r w =
    if r == willard
    then reply "Kazap!  You're at Willard!" discard_text r w
    else if not (r == allerton) && not (r == car_site)
    then reply "That's quite a hike." discard_text r w
    else if not (player_flag_is_set car_fixed w)
    then no_car r w
    else go_to willard (show_status "You drive to Willard Airport." w)

unfoldable pub go_campus : ℕ → World → Outcome
go_campus r w =
    if r == car_site
    then reply "Kazar!  You're on campus!" discard_text r w
    else if not (r == allerton) && not (r == willard)
    then reply "That's quite a hike." discard_text r w
    else go_to car_site (show_status "You drive back to campus." w)

unfoldable pub typed_cmd_go : ℕ → List ℕ → World → Outcome
unfolding says go_allerton go_willard go_campus
typed_cmd_go r arg w =
    if says "allerton" arg
    then go_allerton r w
    else if says "willard" arg || says "airport" arg
    then go_willard r w
    else if says "campus" arg
    then go_campus r w
    else reply "The game map lacks certain places." allow_edit r w
