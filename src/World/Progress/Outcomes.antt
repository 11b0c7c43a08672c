-- ===== src/World/Progress/Outcomes.antt =====
-- Commands of mp2/world.c that end in a fair world.
use ece_391_fall.Prelude.{
  ℕ, ◌≡◌, ◌≢◌, refl, arith, none, some, Bool, true, false, ◌&&◌, if◌then◌else◌, subst,
}
use ece_391_fall.World.{
  World, Action, Outcome, player_flag_is_set, has_eaten, car_open, car_fixed, lured_tux, is_at,
}
use ece_391_fall.World.Things.{tux, book_c, mp2}
use ece_391_fall.World.Rooms.{inventory, cockpit, in_391lab}
use ece_391_fall.World.Progress.{allowed, leads, is_some, IsFair}

-- What a won game stands on: the player has eaten, opened and fixed the car, installed the card and
-- lured Tux, who is in the 391 lab, and carries the C book and the MP2.
unfoldable pub Won : World → Type 0
Won w =
    (player_flag_is_set has_eaten w
      && player_flag_is_set car_open w
      && player_flag_is_set car_fixed w
      && player_flag_is_set lured_tux w
      && is_some (w.enter cockpit)
      && is_at w tux in_391lab
      && is_at w book_c inventory
      && is_at w mp2 inventory)
    ≡ true

-- The player is in a fair world, or has won.
unfoldable pub Safe : Outcome → Type 0
Safe out = ((r : ℕ) → out.place ≡ some r → IsFair r out.world) × (out.place ≡ none → Won out.world)

pub Safe-if :
    (b : Bool) (out out' : Outcome)
    → (b ≡ true → Safe out)
    → (b ≡ false → Safe out')
    → Safe (if b then out else out')
Safe-if true out out' h h' = h refl
Safe-if false out out' h h' = h' refl

pub Safe-stay :
    (action : Action) (r : ℕ) (w : World)
    → IsFair r w
    → Safe (record { action = action; place = some r; world = w })
unfolding Safe
Safe-stay action r w fair = (
  λ q e. let same : r ≡ q = ground (arith, e) in subst (λ a. IsFair a w) same fair,
  λ e. absurd (ground (arith, e)),
)

-- The player goes to a room that is open.
pub IsFair-arrive :
    (r s : ℕ) (w : World)
    → allowed (w.player_flags 0) (is_some (w.enter cockpit)) s ≡ true
    → s ≢ inventory
    → IsFair r w
    → IsFair s w
IsFair-arrive r s w h ne fair = record {
  lists = fair.lists;
  linked = fair.linked;
  roads = fair.roads;
  order = fair.order;
  here = h;
  bag = fair.bag;
  back = λ e. absurd (ne e);
}

pub IsFair-lead : (r s : ℕ) (w : World) → leads r s ≡ true → IsFair r w → IsFair s w
unfolding leads allowed
IsFair-lead r s w h fair =
    IsFair-arrive r s w (ground (arith, h, fair.here)) (ground (arith, h)) fair

pub Safe-over :
    (action : Action) (w : World)
    → Won w
    → Safe (record { action = action; place = none; world = w })
unfolding Safe
Safe-over action w won = (λ r e. absurd (ground (arith, e)), λ e. won)
