-- ===== src/World/Progress/Plays.antt =====
-- install, inventory and use of mp2/world.c end in a fair world, and so does every command.
use ece_391_fall.Prelude.{
  ℕ, ◌/◌, ◌%◌, ◌^◌, ◌<◌, ◌≡◌, ◌≢◌, refl, arith, none, some, List, Bool-cases, inl, inr, true, not,
  ◌&&◌, ◌||◌, ◌==◌, ==_iff, subst, sym, update, bit_or,
}
use ece_391_fall.World.{
  World, says, is_at, do_photo_swap, remove_object, player_flag_is_set, player_set_flag, car_open,
  car_fixed, lured_tux, change_room, swap_car,
}
use ece_391_fall.World.Rooms.{inventory, cockpit, over_will, car_site, allerton, willard, rem_lab}
use ece_391_fall.World.Things.{tux, batt_empty, batt_full, batt_car, mimo_card, car_key, fish}
use ece_391_fall.World.Tasks.{at_hand}
use ece_391_fall.World.Flags.{has, has-set}
use ece_391_fall.World.Devices.{
  install_battery, install_card, typed_cmd_install, typed_cmd_inventory, use_car, use_fish,
  typed_cmd_use,
}
use ece_391_fall.World.Progress.{movable, allowed, IsFair}
use ece_391_fall.World.Progress.Steps.{
  remove_object-IsFair, remove_object-flags, insert_object_at-IsFair,
  move_object_to_inventory-IsFair, player_set_flag-IsFair,
}
use ece_391_fall.World.Progress.Outcomes.{Safe, Safe-if, Safe-stay, IsFair-arrive}
use ece_391_fall.World.Progress.Works.{battery_out, plain_flag}

install_battery-Safe : (r : ℕ) (w : World) → IsFair r w → Safe (install_battery r w)
unfolding install_battery movable
install_battery-Safe r w fair =
    Safe-if (not (at_hand w batt_empty r) && not (at_hand w batt_full r)) _ _
      (λ e. Safe-stay _ r _ fair)
      (λ battery.
        Safe-if (not (r == car_site)) _ _ (λ e. Safe-stay _ r _ fair)
          (λ e.
            Safe-if (at_hand w batt_empty r) _ _ (λ e. Safe-stay _ r _ fair)
              (λ e.
                let w1 = remove_object batt_full w in
                let unlocked : has car_open (w1.player_flags 0) ≡ true =
                  subst (λ f. has car_open (f 0) ≡ true) (sym (remove_object-flags batt_full w))
                    (ground (arith, battery_out r w fair battery)) in
                Safe-stay _ r _ (
                  player_set_flag-IsFair r car_fixed w1 (omega arith) (λ e. unlocked)
                    (λ e. absurd (omega (arith, e)))
                    (remove_object-IsFair r batt_full w (ground arith) fair)))))

-- The card opens the flight.
IsFair-ready :
    (r : ℕ) (w : World)
    → IsFair r w
    → IsFair r (record w { enter = update w.enter cockpit (some over_will) })
unfolding allowed
IsFair-ready r w fair = record {
  lists = fair.lists;
  linked = fair.linked;
  roads = record {
    on_left = fair.roads.on_left;
    on_right = fair.roads.on_right;
    inside = λ q s ne other e. fair.roads.inside q s ne other (ground (arith, e, other));
    flight = λ s e. ground (arith, e);
  };
  order = record {
    word_small = fair.order.word_small;
    tux_home = fair.order.tux_home;
    waiting = fair.order.waiting;
    opened = fair.order.opened;
    lured = λ h. ground (arith, fair.order.lured h);
  };
  here = ground (arith, fair.here);
  bag = λ s e. ground (arith, fair.bag s e);
  back = fair.back;
}

install_card-Safe : (r : ℕ) (w : World) → IsFair r w → Safe (install_card r w)
unfolding install_card
install_card-Safe r w fair =
    Safe-if (not (at_hand w mimo_card r)) _ _ (λ e. Safe-stay _ r _ fair)
      (λ e.
        Safe-if (not (r == cockpit)) _ _ (λ e. Safe-stay _ r _ fair)
          (λ e. Safe-stay _ r _ (
            IsFair-ready r (remove_object mimo_card w)
              (remove_object-IsFair r mimo_card w (ground arith) fair))))

pub typed_cmd_install-Safe :
    (r : ℕ) (arg : List ℕ) (w : World) → IsFair r w → Safe (typed_cmd_install r arg w)
unfolding typed_cmd_install
typed_cmd_install-Safe r arg w fair =
    Safe-if (says "battery" arg) _ _ (λ e. install_battery-Safe r w fair)
      (λ e.
        Safe-if (says "mimo" arg || says "card" arg || says "transmitter" arg) _ _
          (λ e. install_card-Safe r w fair) (λ e. Safe-stay _ r _ fair))

-- The inventory is opened.
IsFair-open :
    (r : ℕ) (w : World)
    → r ≢ inventory
    → IsFair r w
    → IsFair inventory (record w { enter = update w.enter inventory (some r) })
unfolding allowed
IsFair-open r w ne fair = record {
  lists = fair.lists;
  linked = fair.linked;
  roads = record {
    on_left = fair.roads.on_left;
    on_right = fair.roads.on_right;
    inside = λ q s other no e. fair.roads.inside q s other no (ground (arith, e, other));
    flight = fair.roads.flight;
  };
  order = fair.order;
  here = refl;
  bag = λ s e. ground (arith, fair.here, e, ne);
  back = λ e. refl;
}

pub typed_cmd_inventory-Safe :
    (r : ℕ) (arg : List ℕ) (w : World) → IsFair r w → Safe (typed_cmd_inventory r arg w)
unfolding typed_cmd_inventory Safe
typed_cmd_inventory-Safe r arg w fair = elim (Bool-cases (r == inventory)) [
  | inl e ↦
      let same : r ≡ inventory = (==_iff r inventory).0 e in
      rw e (
        λ s h.
            let may = fair.bag s (subst (λ a. w.enter a ≡ some s) same h) in
            IsFair-arrive r s w (ground (arith, may)) (ground (arith, may)) fair,
        λ h. absurd (ground (arith, fair.back same, subst (λ a. w.enter a ≡ none) same h)),
      )
  | inr e ↦
      let bag : World = record w { enter = update w.enter inventory (some r) } in
      rw e (Safe-stay change_room inventory bag (IsFair-open r w (ground (arith, e)) fair))
]

use_car-Safe : (r : ℕ) (w : World) → IsFair r w → Safe (use_car r w)
unfolding use_car player_set_flag movable
use_car-Safe r w fair =
    Safe-if (r == allerton) _ _ (λ e. Safe-stay _ r _ fair)
      (λ e.
        Safe-if (r == willard) _ _ (λ e. Safe-stay _ r _ fair)
          (λ e.
            Safe-if (not (r == car_site)) _ _ (λ e. Safe-stay _ r _ fair)
              (λ e.
                Safe-if (player_flag_is_set car_fixed w) _ _ (λ e. Safe-stay _ r _ fair)
                  (λ e.
                    Safe-if (player_flag_is_set car_open w) _ _ (λ e. Safe-stay _ r _ fair)
                      (λ e.
                        Safe-if (not (is_at w car_key inventory)) _ _ (λ e. Safe-stay _ r _ fair)
                          (λ e.
                            let w1 = remove_object car_key (do_photo_swap r swap_car w) in
                            let fair1 =
                              remove_object-IsFair r car_key (do_photo_swap r swap_car w)
                                (ground arith) fair in
                            let small : w1.player_flags 0 < 32 = fair1.order.word_small in
                            Safe-stay _ r _ (
                              insert_object_at-IsFair
                                (λ f.
                                  update f (car_open / 32)
                                    (bit_or (f (car_open / 32)) (2 ^ (car_open % 32))))
                                r batt_car (omega arith) r 265 122 w1
                                (ground (
                                  arith,
                                  (has-set (w1.player_flags 0) car_open car_open small (omega arith)
                                      (omega arith)).0,
                                ))
                                (plain_flag r car_open w1 (omega arith) fair1))))))))

use_fish-Safe : (r : ℕ) (w : World) → IsFair r w → Safe (use_fish r w)
unfolding use_fish player_set_flag movable allowed
use_fish-Safe r w fair =
    Safe-if (not (at_hand w fish r)) _ _ (λ e. Safe-stay _ r _ fair)
      (λ e.
        Safe-if (not (r == rem_lab)) _ _ (λ e. Safe-stay _ r _ fair)
          (λ there.
            let w1 = remove_object fish w in
            let fair1 = remove_object-IsFair r fish w (ground arith) fair in
            let small : w1.player_flags 0 < 32 = fair1.order.word_small in
            Safe-stay _ r _ (
              move_object_to_inventory-IsFair
                (λ f.
                  update f (lured_tux / 32) (bit_or (f (lured_tux / 32)) (2 ^ (lured_tux % 32))))
                r tux (omega arith) w1
                (ground (
                  arith,
                  (has-set (w1.player_flags 0) lured_tux lured_tux small (omega arith)
                      (omega arith)).0,
                ))
                (player_set_flag-IsFair r lured_tux w1 (omega arith)
                  (λ e. absurd (omega (arith, e))) (λ e. ground (arith, fair1.here, there))
                  fair1))))

pub typed_cmd_use-Safe :
    (r : ℕ) (arg : List ℕ) (w : World) → IsFair r w → Safe (typed_cmd_use r arg w)
unfolding typed_cmd_use
typed_cmd_use-Safe r arg w fair =
    Safe-if (says "car" arg) _ _ (λ e. use_car-Safe r w fair)
      (λ e. Safe-if (says "fish" arg) _ _ (λ e. use_fish-Safe r w fair) (λ e. Safe-stay _ r _ fair))
