-- ===== src/World/ObjectTable.antt =====
-- The table of the objects and of where they start, from mp2/world.c.
use ece_391_fall.Prelude.{ℕ, Option, none, some, List, [], ◌∷◌}
use Prim.Native.String.{String}
use ece_391_fall.World.Rooms.{
  in_ieee, almamater, east_bone, bardeen, talbot, caribou, mntl_lab3, csl_upper, csllounge, statue,
  rem_lab,
}
use ece_391_fall.World.Things.{
  board, jetpack, tux, mp2, book_c, book_wode, gps_bad, gps_good, gps_spec, bunnysuit, batt_empty,
  batt_full, batt_car, mtn_dew, fish, icard, car_key, robot_dead, robot_live, mimo_card,
}

-- `place` is the position in the room, none for a random one.
pub record ObjectData : Type 0 where
  pub id : ℕ
  pub name : String
  pub filename : String
  pub room : Option ℕ
  pub place : Option (ℕ × ℕ)

abbrev row : ℕ → String → String → Option ℕ → Option (ℕ × ℕ) → ObjectData
row id name filename room place = record {
  id = id;
  name = name;
  filename = filename;
  room = room;
  place = place;
}

abbrev pub obj_data : List ObjectData
obj_data =
    row board "board" "images/board.obj" (some in_ieee) none
    ∷ row jetpack "jetpack" "images/jetpack.obj" (some talbot) none
    ∷ row tux "tux" "images/tux.obj" (some rem_lab) (some (250, 100))
    ∷ row mp2 "mp2" "images/mp2.obj" (some csllounge) none
    ∷ row book_c "book" "images/book.obj" none none
    ∷ row book_wode "book" "images/book2.obj" none none
    ∷ row gps_bad "gps" "images/gpsbad.obj" (some talbot) none
    ∷ row gps_good "gps" "images/gpsgood.obj" none none
    ∷ row gps_spec "spec" "images/gpsspec.obj" (some csl_upper) none
    ∷ row bunnysuit "bunnysuit" "images/bunnysuit.obj" (some almamater) (some (230, 250))
    ∷ row batt_empty "battery" "images/battery.obj" none none
    ∷ row batt_full "battery" "images/battery.obj" none none
    ∷ row batt_car "battery" "images/batteryincar.obj" none none
    ∷ row mtn_dew "dew" "images/dew.obj" none none
    ∷ row fish "fish" "images/fish.obj" (some east_bone) (some (80, 260))
    ∷ row icard "Icard" "images/icard.obj" (some bardeen) none
    ∷ row car_key "key" "images/key.obj" (some caribou) none
    ∷ row robot_dead "robot" "images/robot.obj" (some mntl_lab3) none
    ∷ row robot_live "robot" "images/robot.obj" none none
    ∷ row mimo_card "mimo" "images/mimo.obj" (some statue) none
    ∷ []
