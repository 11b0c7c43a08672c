-- ===== src/Tests/Worlds.antt =====
-- The theorems on the world of the adventure game.
use ece_391_fall.Prelude.{
  ℕ, ◌≡◌, subst, inl, inr, refl, arith, List, [], ◌∷◌, some, none, true, false, Bool-cases, ◌==◌,
  if◌then◌else◌, update,
}
use ece_391_fall.Strings.Buffers.{codes}
use ece_391_fall.Tests.Game.{view}
use ece_391_fall.Input.{cmd_typed}
use ece_391_fall.World.{
  World, find_in_room, insert_object_at, player_flag_is_set, car_fixed, wearing_suit, lured_tux,
  is_at,
}
use ece_391_fall.World.Rooms.{inventory, in_cleanr, cockpit, over_will, east_evrt}
use ece_391_fall.World.Things.{mp2, tux}
use ece_391_fall.World.Devices.{perform, drop, get, typed_cmd_inventory, show_inventory}
use ece_391_fall.World.Objects.{mem, distinct}
use ece_391_fall.World.Objects.Chains.{Chain}
use ece_391_fall.World.Objects.Contents.{Holds, moved, insert_object_at-Holds}
use ece_391_fall.World.Find.{FirstWithName, find_in_room-FirstWithName}
use ece_391_fall.World.Progress.{IsFair, allowed, movable, in_country, in_flight}
use ece_391_fall.World.Progress.Takes.{Ends}
use ece_391_fall.World.Progress.Games.{Played, begun, step, Played-Ends, Played-guarded}
use ece_391_fall.World.Build.{cleared_world, build_world, start_in_room}
use ece_391_fall.World.Build.Start.{build_world-IsFair}
use ece_391_fall.Adventure.{
  Game, TypedCmd, cmd_list, matches, verb_length, find_command, handle_cmd, move_photo_down,
  move_photo_up, move_photo_right, move_photo_left,
}
use ece_391_fall.Adventure.Views.{OnPhoto, move_photo-OnPhoto}
use ece_391_fall.Adventure.Verbs.{Entry, find_command_any}
use ece_391_fall.Text.{text_to_image}
use ece_391_fall.Text.Inside.{Drawn, text_to_image-Drawn}
use ece_391_fall.Adventure.Typed.{Playing, handle_cmd-Playing}

-- Late in a game: all is done, and the MP2 is in the inventory.
abbrev late : World
late = record (cleared_world (λ v. (640, 480)) (λ i. (20, 20)) (λ i. i)) {
  contents = λ r. if r == 0 then some 3 else none;
  loc = λ o. if o == 3 then some 0 else none;
  object_name = λ o. some "mp2";
  enter = λ r. if r == 59 then some 60 else none;
  player_flags = λ i. 31;
}

abbrev late_lists : ℕ → List ℕ
late_lists r = if r == 0 then 3 ∷ [] else []

late-Chain : (r : ℕ) → Chain late.next (late.contents r) (late_lists r)
unfolding Chain
late-Chain r = elim (Bool-cases (r == 0)) [ inl e ↦ rw e (refl, refl) | inr e ↦ rw e refl ]

late_once : (r : ℕ) → distinct (late_lists r) ≡ true
unfolding mem distinct
late_once r = elim (Bool-cases (r == 0)) [ inl e ↦ rw e refl | inr e ↦ rw e refl ]

late-Holds : Holds late late_lists
unfolding Chain mem distinct
late-Holds = record {
  chain = λ r. late-Chain r;
  once = λ r. late_once r;
  located = λ r o. ground arith;
  small = λ r o h. ground (arith, h);
}

late-IsFair : IsFair in_cleanr late
unfolding allowed movable
late-IsFair = record {
  lists = late_lists;
  linked = late-Holds;
  roads = record {
    on_left = λ r s e. absurd (ground (arith, e));
    on_right = λ r s e. absurd (ground (arith, e));
    inside = λ r s ne other e. absurd (ground (arith, other, e));
    flight = λ s e. ground (arith, e);
  };
  order = record {
    word_small = omega arith;
    tux_home = λ h. absurd (ground (arith, h));
    waiting = λ o ne h. absurd (ground (arith, h));
    opened = λ h. refl;
    lured = λ h. refl;
  };
  here = refl;
  bag = λ s e. absurd (ground (arith, e));
  back = λ e. absurd (ground (arith, e));
}

insert_object_at-Holds_example :
    Holds (insert_object_at mp2 east_evrt 5 6 late) (moved mp2 east_evrt late_lists)
insert_object_at-Holds_example =
    insert_object_at-Holds mp2 east_evrt 5 6 late late_lists (omega arith) late-Holds

find_in_room-FirstWithName_example :
    FirstWithName
      (codes "Mp2")
      late
      (late_lists inventory)
      (find_in_room inventory (codes "Mp2") late)
find_in_room-FirstWithName_example =
    find_in_room-FirstWithName inventory (codes "Mp2") late late_lists late-Holds

Played-Ends_example : Ends (perform drop in_cleanr (codes "mp2") late)
Played-Ends_example = Played-Ends in_cleanr late in_cleanr late late-IsFair begun drop (codes "mp2")

-- The inventory is bag_shown.
abbrev bag_shown : World
bag_shown = record late { enter = update late.enter 0 (some 8) }

bag_shown-Played : Played in_cleanr late inventory bag_shown
unfolding perform
bag_shown-Played = step show_inventory [] (typed_cmd_inventory in_cleanr [] late) begun refl refl

Played-guarded_example :
    (inventory ≡ in_cleanr → player_flag_is_set wearing_suit bag_shown ≡ true)
    × (in_country inventory ≡ true → player_flag_is_set car_fixed bag_shown ≡ true)
    × (in_flight inventory ≡ true → bag_shown.enter cockpit ≡ some over_will)
    × (is_at bag_shown tux inventory ≡ true → player_flag_is_set lured_tux bag_shown ≡ true)
Played-guarded_example =
    Played-guarded in_cleanr late inventory bag_shown late-IsFair bag_shown-Played

build_world-IsFair_example :
    (w : World) × (build_world
        (λ f. some 1)
        (λ f. some 2)
        (cleared_world (λ v. (640, 480)) (λ i. (20, 20)) (λ i. i))
      ≡ some w)
    × IsFair start_in_room w
build_world-IsFair_example =
    build_world-IsFair (λ f. some 1) (λ f. some 2) (λ v. (640, 480)) (λ i. (20, 20)) (λ i. i)
      (λ f. (1, refl)) (λ f. (2, refl))

-- The game in the cleanroom, with a command typed.
abbrev game : Game
game = record {
  where_at = some in_cleanr;
  map_x = 300;
  map_y = 100;
  x_speed = 6;
  y_speed = 2;
  enter_room = false;
  world = late;
  screen = view;
  input = record { typing = codes " dro mp2"; state = 0 };
}

game-Playing : Playing game
unfolding Playing
game-Playing = (
  λ r e.
      let same : in_cleanr ≡ r = ground (arith, e) in subst (λ a. IsFair a late) same late-IsFair,
  λ e. absurd (ground (arith, e)),
)

handle_cmd-Playing_example :
    (g' : Game) × (handle_cmd cmd_typed in_cleanr game ≡ some g') × Playing g'
handle_cmd-Playing_example = handle_cmd-Playing cmd_typed in_cleanr game refl game-Playing

move_photo-OnPhoto_example :
    OnPhoto in_cleanr (move_photo_down game)
    × OnPhoto in_cleanr (move_photo_up in_cleanr game)
    × OnPhoto in_cleanr (move_photo_right game)
    × OnPhoto in_cleanr (move_photo_left in_cleanr game)
move_photo-OnPhoto_example =
    move_photo-OnPhoto in_cleanr game (omega arith) (omega arith) (omega arith) (omega arith)
      (omega arith, omega arith)

-- The entry of grab, which is one for get.
abbrev grab : TypedCmd
grab = record { name = "grab"; min_len = 2; deed = get }

grab-Entry : Entry grab cmd_list
unfolding Entry
grab-Entry = inr (inr (inr (inr (inr (inr (inr (inr (inr (inl refl)))))))))

grab-matches : matches grab (codes "GRA fish") (verb_length (codes "GRA fish")) ≡ true
unfolding matches verb_length
grab-matches = refl

find_command_any_example :
    find_command cmd_list (codes "GRA fish") (verb_length (codes "GRA fish")) ≡ some get
find_command_any_example = find_command_any grab (codes "GRA fish") grab-Entry grab-matches

-- Every pixel of every glyph is set.
text_to_image-Drawn_example :
    Drawn (text_to_image (λ c row. 255) 3 (codes "get fish") (codes "Boneyard Creek") [])
text_to_image-Drawn_example =
    text_to_image-Drawn (λ c row. 255) 3 (codes "get fish") (codes "Boneyard Creek") []
      (omega arith) (omega arith) (omega arith)
