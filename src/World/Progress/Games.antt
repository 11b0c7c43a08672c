-- ===== src/World/Progress/Games.antt =====
-- Every command of mp2/world.c, and every game made of commands.
use ece_391_fall.Prelude.{
  ℕ, true, inl, inr, Option-cases, ◌≡◌, refl, ap, sym, ◌∙◌, subst, arith, Option, none, some, List,
}
use ece_391_fall.World.{
  World, Outcome, player_flag_is_set, wearing_suit, car_fixed, lured_tux, is_at,
}
use ece_391_fall.World.Rooms.{inventory, in_cleanr, cockpit, over_will}
use ece_391_fall.World.Things.{tux}
use ece_391_fall.World.Devices.{
  Deed, move_left, enter_door, move_right, buy, charge, do_it, drink, drop, fix, flash, get, go,
  install, show_inventory, sigh, use_it, wear, perform,
}
use ece_391_fall.World.Progress.{IsFair, allowed, in_country, in_flight, is_some}
use ece_391_fall.World.Progress.Outcomes.{Safe}
use ece_391_fall.World.Progress.Ways.{
  try_to_move_left-Safe, try_to_enter-Safe, try_to_move_right-Safe,
}
use ece_391_fall.World.Progress.Works.{
  typed_cmd_buy-Safe, typed_cmd_charge-Safe, typed_cmd_do-Safe, typed_cmd_drink-Safe,
  typed_cmd_fix-Safe, typed_cmd_flash-Safe, typed_cmd_sigh-Safe, typed_cmd_wear-Safe,
}
use ece_391_fall.World.Progress.Takes.{
  Ends, typed_cmd_drop-Ends, typed_cmd_get-Ends, typed_cmd_go-Safe,
}
use ece_391_fall.World.Progress.Plays.{
  typed_cmd_install-Safe, typed_cmd_inventory-Safe, typed_cmd_use-Safe,
}

-- In a fair world every command has an outcome, without a NULL room being used: the player is in a
-- fair world again, or has won with all that it takes.
pub perform-Ends :
    (deed : Deed) (r : ℕ) (arg : List ℕ) (w : World) → IsFair r w → Ends (perform deed r arg w)
unfolding perform
perform-Ends move_left r arg w fair = (_, refl, try_to_move_left-Safe r w fair)
perform-Ends enter_door r arg w fair = (_, refl, try_to_enter-Safe r w fair)
perform-Ends move_right r arg w fair = (_, refl, try_to_move_right-Safe r w fair)
perform-Ends buy r arg w fair = (_, refl, typed_cmd_buy-Safe r arg w fair)
perform-Ends charge r arg w fair = (_, refl, typed_cmd_charge-Safe r arg w fair)
perform-Ends do_it r arg w fair = (_, refl, typed_cmd_do-Safe r arg w fair)
perform-Ends drink r arg w fair = (_, refl, typed_cmd_drink-Safe r arg w fair)
perform-Ends drop r arg w fair = typed_cmd_drop-Ends r arg w fair
perform-Ends fix r arg w fair = (_, refl, typed_cmd_fix-Safe r arg w fair)
perform-Ends flash r arg w fair = (_, refl, typed_cmd_flash-Safe r arg w fair)
perform-Ends get r arg w fair = typed_cmd_get-Ends r arg w fair
perform-Ends go r arg w fair = (_, refl, typed_cmd_go-Safe r arg w fair)
perform-Ends install r arg w fair = (_, refl, typed_cmd_install-Safe r arg w fair)
perform-Ends show_inventory r arg w fair = (_, refl, typed_cmd_inventory-Safe r arg w fair)
perform-Ends sigh r arg w fair = (_, refl, typed_cmd_sigh-Safe r arg w fair)
perform-Ends use_it r arg w fair = (_, refl, typed_cmd_use-Safe r arg w fair)
perform-Ends wear r arg w fair = (_, refl, typed_cmd_wear-Safe r arg w fair)

-- The rooms and worlds that commands lead to.
pub data Played (r0 : ℕ) (w0 : World) : ℕ → World → Type 0 where
  begun : Played r0 w0 r0 w0
  step :
      {r s : ℕ} {w : World} (deed : Deed) (arg : List ℕ) (out : Outcome)
      → Played r0 w0 r w
      → perform deed r arg w ≡ some out
      → out.place ≡ some s
      → Played r0 w0 s out.world

outcome-Safe :
    (deed : Deed) (r : ℕ) (arg : List ℕ) (w : World) (out : Outcome)
    → IsFair r w
    → perform deed r arg w ≡ some out
    → Safe out
outcome-Safe deed r arg w out fair e =
    let (out', e', safe) = perform-Ends deed r arg w fair in
    let value : Option Outcome → Outcome = λ o. elim o [ none ↦ out | some x ↦ x ] in
    subst Safe (ap value (sym e' ∙ e)) safe

Played-IsFair :
    {r0 : ℕ} {w0 : World} {r : ℕ} {w : World} → IsFair r0 w0 → Played r0 w0 r w → IsFair r w
unfolding Safe
Played-IsFair fair begun = fair
Played-IsFair fair (step {r} {s} {w} deed arg out played e place) =
    (outcome-Safe deed r arg w out (Played-IsFair fair played) e).0 s place

-- A game that began in a fair world, whatever the commands since: the next command has an outcome,
-- without a NULL room being used. It leaves the player in a fair world, or the game is won, and
-- then the player has eaten, opened and fixed the car, installed the card and lured Tux, who is
-- in the 391 lab, and carries the C book and the MP2.
pub Played-Ends :
    (r0 : ℕ) (w0 : World) (r : ℕ) (w : World)
    → IsFair r0 w0
    → Played r0 w0 r w
    → (deed : Deed) (arg : List ℕ) → Ends (perform deed r arg w)
Played-Ends r0 w0 r w fair played deed arg = perform-Ends deed r arg w (Played-IsFair fair played)

-- In a game that began in a fair world, whatever the commands: the player is in the cleanroom only
-- in the suit, outside of the campus only when the car was fixed, and behind the cockpit only
-- when the card was installed; and Tux is in the inventory only when he was lured.
pub Played-guarded :
    (r0 : ℕ) (w0 : World) (r : ℕ) (w : World)
    → IsFair r0 w0
    → Played r0 w0 r w
    → (r ≡ in_cleanr → player_flag_is_set wearing_suit w ≡ true)
      × (in_country r ≡ true → player_flag_is_set car_fixed w ≡ true)
      × (in_flight r ≡ true → w.enter cockpit ≡ some over_will)
      × (is_at w tux inventory ≡ true → player_flag_is_set lured_tux w ≡ true)
unfolding player_flag_is_set allowed
Played-guarded r0 w0 r w start_fair played =
    let fair = Played-IsFair start_fair played in
    (
      λ e. ground (arith, e, fair.here),
      λ e. ground (arith, e, fair.here),
      λ e. flown (ground (arith, e, fair.here)) fair.roads.flight,
      λ e. ground (arith, e, fair.order.tux_home),
    )
  where
    flown :
        is_some (w.enter cockpit) ≡ true
        → ((s : ℕ) → w.enter cockpit ≡ some s → s ≡ over_will)
        → w.enter cockpit ≡ some over_will
    flown there only = elim (Option-cases (w.enter cockpit)) [
      | inl e ↦ absurd (ground (arith, e, there))
      | inr (s, e) ↦ e ∙ ap some (only s e)
    ]
