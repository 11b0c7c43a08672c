-- ===== src/World/Build.antt =====
-- build_world of mp2/world.c. read_photo and read_obj_image of mp2/photo.c are parameters: they
-- answer with a photo or an image, or none for NULL. The tables' ids are not negative.
pub mod Tables
pub mod Placing
pub mod Start
use Prim.Native.String.{String}
use ece_391_fall.Prelude.{
  ℕ, ◌+◌, Option, none, some, List, [], ◌∷◌, Bool, true, false, not, leb, ◌||◌, if◌then◌else◌,
  update,
}
use ece_391_fall.World.{World, is_null, insert_object, insert_object_at, swap_circle, swap_car}
use ece_391_fall.World.Rooms.{east_evrt}
use ece_391_fall.World.RoomTable.{RoomData, room_data}
use ece_391_fall.World.ObjectTable.{ObjectData, obj_data}

-- The variables of the file at the start, with the photos' and images' sizes and what rand will
-- return.
abbrev pub cleared_world : (Option ℕ → ℕ × ℕ) → (Option ℕ → ℕ × ℕ) → (ℕ → ℕ) → World
cleared_world photo_size image_size random = record {
  room_name = λ r. none;
  view = λ r. none;
  contents = λ r. none;
  left = λ r. none;
  enter = λ r. none;
  right = λ r. none;
  object_name = λ o. none;
  next = λ o. none;
  loc = λ o. none;
  x = λ o. 0;
  y = λ o. 0;
  image = λ o. none;
  photo_size = photo_size;
  image_size = image_size;
  player_flags = λ i. 0;
  swap_photo = λ s. none;
  random = random;
  status = none;
}

-- `NULL != name`.
abbrev pub taken : Option String → Bool
taken none = false
taken (some s) = true

pub record SwapData : Type 0 where
  pub id : ℕ
  pub filename : String

abbrev pub swap_data : List SwapData
swap_data =
    record { id = swap_circle; filename = "images/circlen2.photo" }
    ∷ record { id = swap_car; filename = "images/caropen.photo" }
    ∷ []

abbrev pub set_up_room : RoomData → ℕ → World → World
set_up_room d photo w = record w {
  room_name = update w.room_name d.id (some d.name);
  view = update w.view d.id (some photo);
  contents = update w.contents d.id none;
  left = update w.left d.id d.left;
  enter = update w.enter d.id d.enter;
  right = update w.right d.id d.right;
}

abbrev pub set_up_object : ObjectData → ℕ → World → World
set_up_object d img w = record w {
  object_name = update w.object_name d.id (some d.name);
  image = update w.image d.id (some img);
  next = update w.next d.id none;
  loc = update w.loc d.id none;
  x = update w.x d.id 0;
  y = update w.y d.id 0;
}

-- The object goes into its first room, if any.
unfoldable pub place_object : ObjectData → World → World
unfolding insert_object insert_object_at
place_object d w = elim d.room [
  | none ↦ w
  | some r ↦ elim d.place [
    | some p ↦ insert_object_at d.id r p.0 p.1 w
    | none ↦ insert_object d.id r w
  ]
]

module _ (read_photo read_obj_image : String → Option ℕ) where
  -- The loops over the tables; none for a bad or a duplicate id or a file that cannot be read.
  unfoldable pub build_rooms : List RoomData → World → Option World
  build_rooms [] w = some w
  build_rooms (d ∷ ds) w =
      if leb 64 d.id || taken (w.room_name d.id) then none else elim (read_photo d.filename) [
        | none ↦ none
        | some photo ↦ build_rooms ds (set_up_room d photo w)
      ]

  unfoldable pub build_objects : List ObjectData → World → Option World
  unfolding place_object
  build_objects [] w = some w
  build_objects (d ∷ ds) w =
      if leb 20 d.id || taken (w.object_name d.id) then none else elim (read_obj_image d.filename) [
        | none ↦ none
        | some img ↦ build_objects ds (place_object d (set_up_object d img w))
      ]

  unfoldable pub build_swaps : List SwapData → World → Option World
  build_swaps [] w = some w
  build_swaps (d ∷ ds) w =
      if leb 2 d.id || not (is_null (w.swap_photo d.id))
      then none
      else elim (read_photo d.filename) [
        | none ↦ none
        | some photo ↦
            build_swaps ds (record w { swap_photo = update w.swap_photo d.id (some photo) })
      ]

  unfoldable pub build_world : World → Option World
  unfolding build_rooms build_objects build_swaps
  build_world w = elim (build_rooms room_data w) [
    | none ↦ none
    | some w1 ↦ elim (build_objects obj_data w1) [
      | none ↦ none
      | some w2 ↦ build_swaps swap_data w2
    ]
  ]

abbrev pub start_in_room : ℕ
start_in_room = east_evrt
