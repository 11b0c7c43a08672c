-- ===== src/World/Progress.antt =====
-- What stays true while mp2/world.c is played: the links of the objects, the order of the
-- accomplishments, and the rooms that they open.
pub mod Steps
pub mod Ways
pub mod Outcomes
pub mod Works
pub mod Takes
pub mod Plays
pub mod Games
use ece_391_fall.Prelude.{
  ℕ, ◌<◌, ◌≡◌, ◌≢◌, Option, none, some, List, Bool, true, false, not, ◌&&◌, ◌||◌, leb, ◌==◌,
}
use ece_391_fall.World.{World, points_to, has_eaten, wearing_suit, car_open, car_fixed, lured_tux}
use ece_391_fall.World.Rooms.{inventory, in_cleanr, allerton, cockpit, over_will, rem_lab}
use ece_391_fall.World.Things.{tux, book_c, batt_empty, batt_car}
use ece_391_fall.World.Flags.{has}
use ece_391_fall.World.Objects.Contents.{Linked}

-- The rooms outside of the campus, and those past the plane's cockpit.
abbrev pub in_country : ℕ → Bool
in_country r = leb allerton r && leb r rem_lab

abbrev pub in_flight : ℕ → Bool
in_flight r = leb over_will r && leb r rem_lab

abbrev pub is_some : Option ℕ → Bool
is_some none = false
is_some (some a) = true

-- The player may be in the room: the suit opens the cleanroom, the fixed car the country, and the
-- installed card the flight.
unfoldable pub allowed : (word : ℕ) (ready : Bool) → ℕ → Bool
allowed word ready r =
    (not (r == in_cleanr) || has wearing_suit word)
    && (not (in_country r) || has car_fixed word)
    && (not (in_flight r) || ready)

-- A connection from room r to room s opens nothing.
unfoldable pub leads : ℕ → ℕ → Bool
leads r s =
    not (s == inventory)
    && not (s == in_cleanr)
    && (not (in_country s) || in_country r)
    && (not (in_flight s) || in_flight r)

-- The object may be put somewhere.
unfoldable pub movable : (word : ℕ) → ℕ → Bool
movable word o =
    (not (o == tux) || has lured_tux word)
    && (not (o == book_c) || has has_eaten word)
    && (not (leb batt_empty o && leb o batt_car) || has car_open word)

-- The connections between the rooms; `enter` leads from the inventory back to where the player
-- stands, and from the cockpit on when the card is installed.
pub record Roads (left enter right : ℕ → Option ℕ) : Type 0 where
  pub on_left : (r s : ℕ) → left r ≡ some s → leads r s ≡ true
  pub on_right : (r s : ℕ) → right r ≡ some s → leads r s ≡ true
  pub inside : (r s : ℕ) → r ≢ inventory → r ≢ cockpit → enter r ≡ some s → leads r s ≡ true
  pub flight : (s : ℕ) → enter cockpit ≡ some s → s ≡ over_will

-- The accomplishments have their order: Tux stays until he is lured, the C book comes after a meal,
-- the batteries with the open car, and so on.
pub record Order (word : ℕ) (ready : Bool) (loc : ℕ → Option ℕ) : Type 0 where
  pub word_small : word < 32
  pub tux_home : has lured_tux word ≡ false → points_to (loc tux) rem_lab ≡ true
  pub waiting : (o : ℕ) → o ≢ tux → movable word o ≡ false → loc o ≡ none
  pub opened : has car_fixed word ≡ true → has car_open word ≡ true
  pub lured : has lured_tux word ≡ true → (has car_fixed word && ready) ≡ true

pub record Fair (r : ℕ) (contents next loc : ℕ → Option ℕ) (flags : ℕ → ℕ)
    (left enter right : ℕ → Option ℕ) : Type 0 where
  pub lists : ℕ → List ℕ
  pub linked : Linked contents next loc lists
  pub roads : Roads left enter right
  pub order : Order (flags 0) (is_some (enter cockpit)) loc
  pub here : allowed (flags 0) (is_some (enter cockpit)) r ≡ true
  pub bag :
      (s : ℕ)
      → enter inventory ≡ some s
      → (allowed (flags 0) (is_some (enter cockpit)) s && not (s == inventory)) ≡ true
  pub back : r ≡ inventory → is_some (enter inventory) ≡ true

-- The player is in room r of a fair world.
abbrev pub IsFair : ℕ → World → Type 0
IsFair r w = Fair r w.contents w.next w.loc w.player_flags w.left w.enter w.right
