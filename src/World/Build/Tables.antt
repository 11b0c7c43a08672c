-- ===== src/World/Build/Tables.antt =====
-- What the loops of build_world in mp2/world.c make of the tables.
use Prim.Native.String.{String}
use ece_391_fall.Prelude.{
  ℕ, ◌≡◌, refl, arith, Option, none, some, List, [], ◌∷◌, Bool, true, false, not, ◌&&◌, ◌||◌, ltb,
  leb, update,
}
use ece_391_fall.World.{World}
use ece_391_fall.World.RoomTable.{RoomData}
use ece_391_fall.World.Build.{set_up_room, build_rooms, taken}

-- Every file can be read.
abbrev pub Reads : (String → Option ℕ) → Type 0
Reads read = (f : String) → (p : ℕ) × (read f ≡ some p)

-- The ids are in range and there is none twice.
unfoldable pub rooms_fit : List RoomData → (ℕ → Option String) → Bool
rooms_fit [] names = true
rooms_fit (d ∷ ds) names =
    ltb d.id 64 && not (taken (names d.id)) && rooms_fit ds (update names d.id (some d.name))

-- The connections that the rows give.
unfoldable pub connect : (RoomData → Option ℕ) → List RoomData → (ℕ → Option ℕ) → ℕ → Option ℕ
connect side [] f = f
connect side (d ∷ ds) f = connect side ds (update f d.id (side d))

-- The world has the rooms of the table, and else is as before.
pub record Roomed (ds : List RoomData) (w w' : World) : Type 0 where
  pub left : w'.left ≡ connect (λ d. d.left) ds w.left
  pub enter : w'.enter ≡ connect (λ d. d.enter) ds w.enter
  pub right : w'.right ≡ connect (λ d. d.right) ds w.right
  pub empty : ((r : ℕ) → w.contents r ≡ none) → (r : ℕ) → w'.contents r ≡ none
  pub objects : (w'.object_name ≡ w.object_name) × (w'.next ≡ w.next) × (w'.loc ≡ w.loc)
  pub others : (w'.player_flags ≡ w.player_flags) × (w'.swap_photo ≡ w.swap_photo)

module _ (read_photo read_obj_image : String → Option ℕ) (photos : Reads read_photo) where
  pub build_rooms-Roomed :
      (ds : List RoomData) (w : World)
      → rooms_fit ds w.room_name ≡ true
      → (w' : World) × (build_rooms read_photo read_obj_image ds w ≡ some w') × Roomed ds w w'
  unfolding build_rooms rooms_fit connect
  build_rooms-Roomed [] w fit = (
    w,
    refl,
    record {
      left = refl;
      enter = refl;
      right = refl;
      empty = λ h. h;
      objects = (refl, refl, refl);
      others = (refl, refl);
    },
  )
  build_rooms-Roomed (d ∷ ds) w fit =
      let (photo, read) = photos d.filename in
      let guard : (leb 64 d.id || taken (w.room_name d.id)) ≡ false = ground (arith, fit) in
      let (w', e, rest) = build_rooms-Roomed ds (set_up_room d photo w) (ground (arith, fit)) in
      (
        w',
        rw (guard, read) e,
        record {
          left = rest.left;
          enter = rest.enter;
          right = rest.right;
          empty = λ h. rest.empty (λ r. ground (arith, h r));
          objects = rest.objects;
          others = rest.others;
        },
      )
