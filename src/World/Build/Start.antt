-- ===== src/World/Build/Start.antt =====
-- The world that build_world of mp2/world.c makes.
use Prim.Native.String.{String}
use ece_391_fall.Prelude.{
  ℕ, ◌≡◌, ◌≢◌, ◌⊎◌, refl, ap, sym, ◌∙◌, subst, arith, inl, inr, Option, none, some, List, [], ◌∷◌,
  Bool, true, false, ◌&&◌, ◌==◌, ==_iff, Bool-cases, update,
}
use ece_391_fall.World.{World, swap_circle, swap_car}
use ece_391_fall.World.Rooms.{inventory, cockpit}
use ece_391_fall.World.Things.{tux, book_c, batt_empty, batt_full, batt_car}
use ece_391_fall.World.RoomTable.{RoomData, room_data}
use ece_391_fall.World.ObjectTable.{obj_data}
use ece_391_fall.World.Progress.{Order, IsFair, leads, movable, allowed}
use ece_391_fall.World.Objects.{mem, distinct}
use ece_391_fall.World.Objects.Chains.{Chain}
use ece_391_fall.World.Objects.Contents.{Holds}
use ece_391_fall.World.Build.{cleared_world, build_swaps, build_world, swap_data, start_in_room}
use ece_391_fall.World.Build.Tables.{Reads, rooms_fit, connect, build_rooms-Roomed}
use ece_391_fall.World.Build.Placing.{objects_fit, settle, settle_all, build_objects-Furnished}

rooms_table : rooms_fit room_data (λ r. none) ≡ true
unfolding rooms_fit
rooms_table = refl

objects_table : objects_fit obj_data (λ o. none) (λ o. none) ≡ true
unfolding objects_fit
objects_table = refl

-- The connection of a row leads only where the player may go.
abbrev open_road : (RoomData → Option ℕ) → RoomData → Bool
unfolding leads
open_road side d = elim (side d) [ none ↦ true | some s ↦ leads d.id s ]

-- The same of each row.
open_roads : (RoomData → Option ℕ) → List RoomData → Bool
unfolding leads
open_roads side [] = true
open_roads side (d ∷ ds) = open_road side d && open_roads side ds

open_road-leads :
    (side : RoomData → Option ℕ) (d : RoomData) (s : ℕ)
    → open_road side d ≡ true
    → side d ≡ some s
    → leads d.id s ≡ true
unfolding open_road
open_road-leads side d s road out =
    subst (λ o. elim o [ none ↦ true | some t ↦ leads d.id t ] ≡ true) out road

connect-leads :
    (side : RoomData → Option ℕ) (ds : List RoomData) (f : ℕ → Option ℕ) (r s : ℕ)
    → open_roads side ds ≡ true
    → (f r ≡ some s → leads r s ≡ true)
    → connect side ds f r ≡ some s
    → leads r s ≡ true
unfolding connect open_roads
connect-leads side [] f r s fit base e = base e
connect-leads side (d ∷ ds) f r s fit base e =
    connect-leads side ds (update f d.id (side d)) r s (ground (arith, fit))
      (λ h. elim (Bool-cases (d.id == r)) [
        | inl same ↦
            let road : open_road side d ≡ true = ground (arith, fit) in
            let out : side d ≡ some s = ground (arith, same, h) in
            subst (λ a. leads a s ≡ true) ((==_iff d.id r).0 same)
              (open_road-leads side d s road out)
        | inr other ↦ base (ground (arith, other, h))
      ])
      e

left_table : open_roads (λ d. d.left) room_data ≡ true
unfolding open_roads
left_table = refl

right_table : open_roads (λ d. d.right) room_data ≡ true
unfolding open_roads
right_table = refl

enter_table : open_roads (λ d. d.enter) room_data ≡ true
unfolding open_roads
enter_table = refl

build_swaps_lem :
    (read_photo read_obj_image : String → Option ℕ) (w : World)
    → Reads read_photo
    → ((s : ℕ) → w.swap_photo s ≡ none)
    → (photos : ℕ → Option ℕ) × (build_swaps read_photo read_obj_image swap_data w
        ≡ some (record w { swap_photo = photos }))
unfolding build_swaps
build_swaps_lem read_photo read_obj_image w photos none_yet =
    let (p, e) = photos "images/circlen2.photo" in
    let (q, f) = photos "images/caropen.photo" in
    (
      update (update w.swap_photo swap_circle (some p)) swap_car (some q),
      rw (none_yet swap_circle, e, none_yet swap_car, f) refl,
    )

-- The order at the start: nothing is done yet.
start_Order : Order 0 false (settle_all obj_data (λ o. none))
unfolding settle_all settle movable
start_Order = record {
  word_small = omega arith;
  tux_home = λ h. refl;
  waiting = λ o ne h. start_waiting o ne h;
  opened = λ h. absurd (ground (arith, h));
  lured = λ h. absurd (ground (arith, h));
}
  where
    cases :
        (o : ℕ)
        → o ≢ tux
        → movable 0 o ≡ false
        → (o ≡ book_c) ⊎ (o ≡ batt_empty) ⊎ (o ≡ batt_full) ⊎ (o ≡ batt_car)
    cases o ne h = ground (arith, ne, h)

    start_waiting :
        (o : ℕ) → o ≢ tux → movable 0 o ≡ false → settle_all obj_data (λ p. none) o ≡ none
    start_waiting o ne h = elim (cases o ne h) [
      | inl e ↦ rw e refl
      | inr (inl e) ↦ rw e refl
      | inr (inr (inl e)) ↦ rw e refl
      | inr (inr (inr e)) ↦ rw e refl
    ]

-- A world with the tables' connections and places, and no flag, is fair at the start.
built-IsFair :
    (w : World) (lists : ℕ → List ℕ)
    → Holds w lists
    → w.player_flags ≡ (λ i. 0)
    → w.loc ≡ settle_all obj_data (λ o. none)
    → w.left ≡ connect (λ d. d.left) room_data (λ r. none)
    → w.enter ≡ connect (λ d. d.enter) room_data (λ r. none)
    → w.right ≡ connect (λ d. d.right) room_data (λ r. none)
    → IsFair start_in_room w
unfolding connect allowed
built-IsFair w lists holds flags places lefts enters rights =
    let cockpit_end : w.enter cockpit ≡ none = ap (λ f. f cockpit) enters in
    let bag_empty : w.enter inventory ≡ none = ap (λ f. f inventory) enters in
    record {
      lists = lists;
      linked = holds;
      roads = record {
        on_left = λ r s e.
            connect-leads (λ d. d.left) room_data (λ q. none) r s left_table
              (λ h. absurd (ground (arith, h))) (sym (ap (λ f. f r) lefts) ∙ e);
        on_right = λ r s e.
            connect-leads (λ d. d.right) room_data (λ q. none) r s right_table
              (λ h. absurd (ground (arith, h))) (sym (ap (λ f. f r) rights) ∙ e);
        inside = λ r s ne other e.
            connect-leads (λ d. d.enter) room_data (λ q. none) r s enter_table
              (λ h. absurd (ground (arith, h))) (sym (ap (λ f. f r) enters) ∙ e);
        flight = λ s e. absurd (ground (arith, e, cockpit_end));
      };
      order = rw (cockpit_end, flags, places) start_Order;
      here = refl;
      bag = λ s e. absurd (ground (arith, e, bag_empty));
      back = λ e. absurd (ground (arith, e));
    }

-- No object is anywhere.
bare-Holds : (w : World) → ((r : ℕ) → w.contents r ≡ none) → w.loc ≡ (λ o. none) → Holds w (λ r. [])
unfolding Chain mem distinct
bare-Holds w empty nowhere = record {
  chain = empty;
  once = λ r. refl;
  located = λ r o. rw nowhere refl;
  small = λ r o h. absurd (ground (arith, h));
}

-- When every file can be read, build_world succeeds, and the game starts in a fair world.
pub build_world-IsFair :
    (read_photo read_obj_image : String → Option ℕ) (photo_size image_size : Option ℕ → ℕ × ℕ)
    (random : ℕ → ℕ)
    → Reads read_photo
    → Reads read_obj_image
    → (w : World) × (build_world read_photo read_obj_image
          (cleared_world photo_size image_size random)
        ≡ some w)
      × IsFair start_in_room w
unfolding build_world
build_world-IsFair read_photo read_obj_image photo_size image_size random photos images =
    let w0 : World = cleared_world photo_size image_size random in
    let (w1, e1, rooms) =
      build_rooms-Roomed read_photo read_obj_image photos room_data w0 rooms_table in
    let loc1 : w1.loc ≡ (λ o. none) = rooms.objects.2 in
    let fit : objects_fit obj_data w1.object_name w1.loc ≡ true =
      rw (rooms.objects.0, loc1) objects_table in
    let bare = bare-Holds w1 (rooms.empty (λ r. refl)) loc1 in
    let (w2, e2, objects) =
      build_objects-Furnished read_photo read_obj_image images obj_data w1 (λ r. []) fit bare in
    let flags : w2.player_flags ≡ (λ i. 0) = objects.others.0 ∙ rooms.others.0 in
    let unswapped : w2.swap_photo ≡ (λ i. none) = objects.others.1 ∙ rooms.others.1 in
    let (swaps, e3) =
      build_swaps_lem read_photo read_obj_image w2 photos (λ i. ap (λ f. f i) unswapped) in
    let enters = objects.roads.1 ∙ rooms.enter in
    (
      record w2 { swap_photo = swaps },
      rw (e1, e2) e3,
      built-IsFair w2 objects.lists objects.holds flags
          (objects.placed ∙ ap (settle_all obj_data) loc1) (objects.roads.0 ∙ rooms.left) enters
          (objects.roads.2 ∙ rooms.right),
    )
