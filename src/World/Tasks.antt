-- ===== src/World/Tasks.antt =====
-- The typed commands of mp2/world.c that work on one kind of object: buy, charge, do, drink, fix,
-- flash, sigh and wear.
use ece_391_fall.Prelude.{ℕ, none, some, List, Bool, not, ◌&&◌, ◌||◌, ◌==◌, if◌then◌else◌}
use ece_391_fall.World.{
  World, allow_edit, discard_text, redraw_room, change_room, Outcome, has_eaten, wearing_suit,
  is_at, show_status, says, remove_object, move_object_to_inventory, player_flag_is_set,
  player_set_flag,
}
use ece_391_fall.World.Rooms.{
  inventory, in_391lab, in_395lab, in_cleanr, evrt_vend, in_cocomr, by_zas, beck_mri,
}
use ece_391_fall.World.Things.{
  tux, mp2, book_c, gps_bad, gps_good, gps_spec, bunnysuit, batt_empty, batt_full, mtn_dew,
  robot_dead, robot_live,
}
use ece_391_fall.World.Moves.{reply}

-- The object is carried, or stands in the player's room.
abbrev pub at_hand : World → ℕ → ℕ → Bool
at_hand w o r = is_at w o inventory || is_at w o r

-- What is said while the Dew is bought.
abbrev pub dew_line : World → World
dew_line w = elim (w.loc mtn_dew) [
  | some l ↦ show_status "Last one get stolen?  Ok...here we go..." w
  | none ↦ show_status "You buy a Dew." w
]

unfoldable pub buy_dew : ℕ → World → Outcome
unfolding move_object_to_inventory
buy_dew r w =
    if not (r == evrt_vend)
    then reply "Great idea!  But ... where?" discard_text r w
    else if at_hand w mtn_dew r
    then reply "Slow down!  One at a time..." discard_text r w
    else record {
      action = redraw_room;
      place = some r;
      world = move_object_to_inventory mtn_dew (dew_line w);
    }

unfoldable pub buy_yogurt : ℕ → World → Outcome
unfolding player_flag_is_set player_set_flag
buy_yogurt r w =
    if not (r == in_cocomr)
    then reply "Cocomero doesn't deliver here." discard_text r w
    else if player_flag_is_set has_eaten w
    then reply "You're not hungry." discard_text r w
    else reply "So tasty and delicious!" discard_text r (player_set_flag has_eaten w)

unfoldable pub typed_cmd_buy : ℕ → List ℕ → World → Outcome
unfolding buy_dew buy_yogurt says
typed_cmd_buy r arg w =
    if says "dew" arg
    then buy_dew r w
    else if says "yogurt" arg
    then buy_yogurt r w
    else reply "Sorry, purchasing options are limited." allow_edit r w

unfoldable pub typed_cmd_charge : ℕ → List ℕ → World → Outcome
unfolding says remove_object move_object_to_inventory
typed_cmd_charge r arg w =
    if not (says "battery" arg)
    then reply "Electronic devices aren't (always) toys!" allow_edit r w
    else if not (at_hand w batt_empty r) && not (at_hand w batt_full r)
    then reply "What battery?" discard_text r w
    else if not (r == beck_mri)
    then reply "Find a bigger magnet." discard_text r w
    else if at_hand w batt_full r
    then reply "Don't overdo it." discard_text r w
    else reply "Wow!  That's a strong magnet!" redraw_room r
        (move_object_to_inventory batt_full (remove_object batt_empty w))

unfoldable pub typed_cmd_do : ℕ → List ℕ → World → Outcome
unfolding says
typed_cmd_do r arg w =
    if not (r == in_391lab)
    then reply "You can't 'do' anything here." allow_edit r w
    else if not (says "391" arg) && not (says "mp2" arg)
    then reply "Doing the 391 MP2 is more important!" allow_edit r w
    else if not (is_at w book_c inventory)
    then reply "You'd better get a book from Grainger." discard_text r w
    else if not (is_at w mp2 inventory)
    then reply "Web's down.  Bring your own MP2." discard_text r w
    else if not (is_at w tux in_391lab)
    then reply "You'd have better luck if Tux were here." discard_text r w
    else record { action = change_room; place = none; world = w }

unfoldable pub typed_cmd_drink : ℕ → List ℕ → World → Outcome
unfolding says remove_object
typed_cmd_drink r arg w =
    if not (says "dew" arg)
    then reply "That sounds less refreshing than Dew." allow_edit r w
    else if not (at_hand w mtn_dew r)
    then reply "Uh-oh.  Hadewcinations.  Buy one soon!" discard_text r w
    else reply "Ahhhhhhhhhhhhhhhh...........nother?" redraw_room r (remove_object mtn_dew w)

unfoldable pub typed_cmd_fix : ℕ → List ℕ → World → Outcome
unfolding says remove_object move_object_to_inventory
typed_cmd_fix r arg w =
    if not (says "gps" arg)
    then reply "In the game, you're not as capable." allow_edit r w
    else if at_hand w gps_good r
    then reply "It's working fine." discard_text r w
    else if not (at_hand w gps_bad r)
    then reply "Do you have a GPS?" discard_text r w
    else if not (r == in_cleanr)
    then reply "You'd better go to the cleanroom." discard_text r w
    else if not (at_hand w gps_spec r)
    then reply "Maybe you'd better get a spec?" discard_text r w
    else reply "All done--wow, you're good!" change_room r
        (move_object_to_inventory gps_good (remove_object gps_spec (remove_object gps_bad w)))

unfoldable pub typed_cmd_flash : ℕ → List ℕ → World → Outcome
unfolding says remove_object move_object_to_inventory
typed_cmd_flash r arg w =
    if not (says "robot" arg)
    then reply "Don't waste your time." allow_edit r w
    else if not (at_hand w robot_dead r) && not (at_hand w robot_live r)
    then reply "Maybe get the robot first?" discard_text r w
    else if not (r == in_395lab)
    then reply "With spit and a lemon?  Try the lab." discard_text r w
    else if at_hand w robot_live r
    then reply "You flash the robot's ROM again." discard_text r w
    else reply "You flash it with a lockpicking code." redraw_room r
        (move_object_to_inventory robot_live (remove_object robot_dead w))

unfoldable pub typed_cmd_sigh : ℕ → List ℕ → World → Outcome
unfolding player_set_flag
typed_cmd_sigh r arg w =
    if not (r == by_zas)
    then reply "MP2 got you down?  Take a break!" discard_text r w
    else record {
      action = discard_text;
      place = some r;
      world = player_set_flag has_eaten (show_status "So sad... you lose your appetite." w);
    }

unfoldable pub typed_cmd_wear : ℕ → List ℕ → World → Outcome
unfolding says remove_object player_set_flag
typed_cmd_wear r arg w =
    if not (says "bunnysuit" arg)
    then reply "Big Brother forbids fashion statements." allow_edit r w
    else if not (at_hand w bunnysuit r)
    then reply "Do you have a bunnysuit?" discard_text r w
    else reply "You look good in pink!" redraw_room r
        (player_set_flag wearing_suit (remove_object bunnysuit w))
