-- ===== src/World/Moves.antt =====
-- The player's moves between rooms in mp2/world.c: left, enter and right.
use ece_391_fall.Prelude.{ℕ, ◌%◌, none, some, List, [], ◌∷◌, ◌==◌, if◌then◌else◌, get_or}
use Prim.Native.String.{String}
use ece_391_fall.World.{
  World, Action, allow_edit, change_room, Outcome, wearing_suit, swap_circle, is_at, show_status,
  rand, drawn, do_photo_swap, player_flag_is_set,
}
use ece_391_fall.World.Rooms.{
  inventory, in_395lab, by_395lab, in_cleanr, by_cleanr, circle_n, mntl_lab1, csl_door, csl_lobby,
  beck_door, becklobby, cockpit,
}
use ece_391_fall.World.Things.{icard, robot_dead, robot_live}

-- The command ends with `*rptr` unchanged, after a message.
abbrev pub reply : String → Action → ℕ → World → Outcome
reply s action r w = record { action = action; place = some r; world = show_status s w }

abbrev pub go_to : ℕ → World → Outcome
go_to r w = record { action = change_room; place = some r; world = w }

-- The move into the room that exists, with the photo of the Boneyard Circle at random.
unfoldable pub move_into : ℕ → World → Outcome
move_into next w = go_to next (
    if next == circle_n
    then (if rand w % 2 == 0 then do_photo_swap next swap_circle (drawn w) else drawn w)
    else w)

abbrev pub no_way : ℕ → World → Outcome
no_way r w =
    if r == 0
    then reply "Push 'home' or type 'inventory'." allow_edit r w
    else reply "You can't go that way." allow_edit r w

unfoldable pub try_to_move_left : ℕ → World → Outcome
unfolding move_into
try_to_move_left r w = elim (w.left r) [ some next ↦ move_into next w | none ↦ no_way r w ]

unfoldable pub try_to_move_right : ℕ → World → Outcome
unfolding move_into
try_to_move_right r w = elim (w.right r) [ some next ↦ move_into next w | none ↦ no_way r w ]

abbrev pub advice : List String
advice =
    "Kevin says, \"Andres' board is FAST!\"" ∷ "Kevin asks, \"Got a jetpack?\""
    ∷ "Kevin: \"You can flash hardware in 395.\"" ∷ "Kevin suggests, \"Always carry a fish.\""
    ∷ "Kevin asks, \"Have you done your MP2?\"" ∷ "Kevin says, \"Cocomero sells yogurt.\""
    ∷ "Kevin asks, \"Maybe you need a Dew?\"" ∷ "Kevin: \"A magnet can charge a battery.\"" ∷ []

-- What `enter` does in a room without an `enter` direction.
unfoldable pub special_enter : ℕ → World → Outcome
unfolding player_flag_is_set
special_enter r w =
    if r == by_cleanr
    then (if player_flag_is_set wearing_suit w
        then go_to in_cleanr w
        else reply "You're not wearing a bunnysuit!" allow_edit r w)
    else if r == by_395lab
    then (if is_at w icard inventory
        then go_to in_395lab (show_status "You swiped your Icard." w)
        else reply "You need a valid Icard." allow_edit r w)
    else if r == csl_door
    then (if is_at w icard inventory
        then go_to csl_lobby (show_status "You swiped your Icard." w)
        else reply "You need a valid Icard." allow_edit r w)
    else if r == beck_door
    then (if is_at w robot_live inventory
        then go_to becklobby (show_status "The robot hand picked the lock!" w)
        else if is_at w robot_dead inventory
        then reply "Flash the robot's code again." allow_edit r w
        else reply "Complex lock!  Find a nanotech robot." allow_edit r w)
    else if r == mntl_lab1
    then reply (get_or advice (rand w % 8) "") allow_edit r (drawn w)
    else if r == cockpit
    then reply "A MIMO transmitter card is missing!" allow_edit r w
    else reply "You can't go that way." allow_edit r w

unfoldable pub try_to_enter : ℕ → World → Outcome
unfolding move_into special_enter
try_to_enter r w = elim (w.enter r) [ some next ↦ move_into next w | none ↦ special_enter r w ]
