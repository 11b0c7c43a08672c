-- ===== src/World.antt =====
-- The world of the adventure game, mp2/world.c: its state, and the operations on objects, flags
-- and photos that the commands are made of. A pointer to a room or an object is its index, or
-- none for NULL. `random` gives what the next calls of rand return, numbers below 2 ^ 31.
mod State
pub mod Rooms
pub mod Things
pub mod RoomTable
pub mod ObjectTable
pub mod Moves
pub mod Tasks
pub mod Commands
pub mod Devices
pub mod Objects
pub mod Flags
pub mod Find
pub mod Progress
pub mod Build
use Prim.Native.String.{String}
use ece_391_fall.Prelude.{
  ℕ, zero, suc, ◌+◌, ◌-◌, ◌*◌, ◌/◌, ◌%◌, ◌^◌, Option, none, some, List, [], ◌∷◌, Bool, true, false,
  not, ◌&&◌, ◌||◌, leb, ltb, ◌==◌, if◌then◌else◌, update, bit_and, bit_or, sub32, sle,
}
use ece_391_fall.Strings.Buffers.{codes}
use ece_391_fall.World.Rooms.{inventory}
use ece_391_fall.World.Things.{board, jetpack}
unfoldable pub use ece_391_fall.World.State.*

abbrev pub do_photo_swap : ℕ → ℕ → World → World
do_photo_swap r which w = record w {
  view = update w.view r (w.swap_photo which);
  swap_photo = update w.swap_photo which (w.view r);
}

-- The rounds that a walk over a room's objects is given: N_OBJECTS + 1.
abbrev pub walk : ℕ
walk = 21

unfoldable pub named : World → List ℕ → ℕ → Bool
unfolding same_text
named w arg o = elim (w.object_name o) [ none ↦ false | some s ↦ same_text arg (codes s) ]

-- The loop of find_in_room from a pointer.
unfoldable pub find_from : ℕ → Option ℕ → List ℕ → World → Option ℕ
unfolding same_text
find_from zero p arg w = none
find_from (suc k) none arg w = none
find_from (suc k) (some o) arg w =
    let rest = find_from k (w.next o) arg w in if named w arg o then some o else rest

unfoldable pub find_in_room : ℕ → List ℕ → World → Option ℕ
unfolding find_from
find_in_room r arg w = find_from walk (w.contents r) arg w

-- A place that holds a pointer to an object: a room's `contents` or an object's `next`.
pub data Link : Type 0 where
  head : ℕ → Link
  after : ℕ → Link

-- `*find`, and the assignment to it.
abbrev pub target : Link → World → Option ℕ
target (head r) w = w.contents r
target (after o) w = w.next o

abbrev pub store_link : Link → Option ℕ → World → World
store_link (head r) v w = record w { contents = update w.contents r v }
store_link (after o) v w = record w { next = update w.next o v }

-- The loop of remove_object, from the link `find` and its value `p`.
unfoldable pub unlink : ℕ → Link → Option ℕ → ℕ → World → World
unlink zero find p o w = w
unlink (suc k) find none o w = w
unlink (suc k) find (some p) o w =
    let rest = unlink k (after p) (w.next p) o w in
    if o == p then store_link find (w.next o) w else rest

unfoldable pub remove_object : ℕ → World → World
unfolding unlink
remove_object o w = elim (w.loc o) [
  | none ↦ w
  | some r ↦
      let w' = unlink walk (head r) (w.contents r) o w in record w' { loc = update w'.loc o none }
]

unfoldable pub insert_object_at : ℕ → ℕ → ℕ → ℕ → World → World
unfolding remove_object
insert_object_at o r x y w =
    let w1 = remove_object o w in
    record w1 {
      x = update w1.x o (x % 2 ^ 16);
      y = update w1.y o (y % 2 ^ 16);
      loc = update w1.loc o (some r);
      next = update w1.next o (w1.contents r);
      contents = update w1.contents r (some o);
    }

-- `0 >= range ? 0 : rand () % range`, with the world after it.
abbrev pub pick : ℕ → World → ℕ × World
pick range w = if sle range 0 then (0, w) else (rand w % range, drawn w)

-- The height at which insert_object places an image.
abbrev pub pick_height : ℕ → ℕ → World → ℕ × World
pick_height space img_ht w =
    let range = sub32 (space / 4) img_ht in
    if sle range 0 then pick (sub32 space img_ht) w else (rand w % range + 3 * space / 4, drawn w)

unfoldable pub insert_object : ℕ → ℕ → World → World
unfolding insert_object_at
insert_object o r w =
    let photo = w.photo_size (w.view r) in
    let img = w.image_size (w.image o) in
    let (xpos, w1) = pick (sub32 photo.0 img.0) w in
    let (ypos, w2) = pick_height photo.1 img.1 w1 in insert_object_at o r xpos ypos w2

-- The inner loop of move_object_to_inventory: is an object at (x, y)?
unfoldable pub conflict : ℕ → Option ℕ → ℕ → ℕ → World → Bool
conflict zero conf x y w = false
conflict (suc k) none x y w = false
conflict (suc k) (some o) x y w =
    let rest = conflict k (w.next o) x y w in if x == w.x o && y == w.y o then true else rest

-- The loops over x and over y, up to the first free position.
unfoldable pub free_column : ℕ → ℕ → ℕ → World → Option (ℕ × ℕ)
unfolding conflict
free_column zero x y w = none
free_column (suc k) x y w =
    let rest = free_column k (x + 100) y w in
    if leb x 210
    then (if conflict walk (w.contents inventory) x y w then rest else some (x, y))
    else none

unfoldable pub free_row : ℕ → ℕ → World → Option (ℕ × ℕ)
unfolding free_column
free_row zero y w = none
free_row (suc k) y w =
    let rest = free_row k (y + 50) w in
    if leb y 160
    then elim (free_column 4 10 y w) [ none ↦ rest | some place ↦ some place ]
    else none

unfoldable pub move_object_to_inventory : ℕ → World → World
unfolding insert_object_at insert_object free_row
move_object_to_inventory obj w = elim (free_row 5 10 w) [
  | none ↦ insert_object obj inventory w
  | some place ↦ insert_object_at obj inventory place.0 place.1 w
]

unfoldable pub player_flag_is_set : ℕ → World → Bool
player_flag_is_set fnum w = not (bit_and (w.player_flags (fnum / 32)) (2 ^ (fnum % 32)) == 0)

unfoldable pub player_set_flag : ℕ → World → World
player_set_flag fnum w = record w {
  player_flags =
      update w.player_flags (fnum / 32) (bit_or (w.player_flags (fnum / 32)) (2 ^ (fnum % 32)));
}

unfoldable pub player_has_board : World → Bool
player_has_board w = is_at w board inventory

unfoldable pub player_has_jetpack : World → Bool
player_has_jetpack w = is_at w jetpack inventory
