-- ===== src/World/Progress/Works.antt =====
-- The typed commands of mp2/world.c for one kind of object end in a fair world.
use ece_391_fall.Prelude.{
  ℕ, ◌<◌, ◌≡◌, ◌≢◌, refl, arith, List, Option-cases, inl, inr, true, false, not, ◌&&◌, ◌==◌, subst,
  sym,
}
use ece_391_fall.World.{
  World, says, is_at, show_status, remove_object, move_object_to_inventory, player_flag_is_set,
  player_set_flag, has_eaten, wearing_suit, lured_tux,
}
use ece_391_fall.World.Rooms.{
  inventory, in_391lab, evrt_vend, in_cocomr, beck_mri, in_cleanr, in_395lab, by_zas,
}
use ece_391_fall.World.Things.{
  tux, mp2, book_c, mtn_dew, batt_empty, batt_full, gps_bad, gps_good, gps_spec, robot_dead,
  robot_live, bunnysuit,
}
use ece_391_fall.World.Tasks.{
  at_hand, dew_line, buy_dew, buy_yogurt, typed_cmd_buy, typed_cmd_charge, typed_cmd_do,
  typed_cmd_drink, typed_cmd_fix, typed_cmd_flash, typed_cmd_sigh, typed_cmd_wear,
}
use ece_391_fall.World.Progress.{movable, IsFair}
use ece_391_fall.World.Flags.{has}
use ece_391_fall.World.Progress.Steps.{
  remove_object-IsFair, remove_object-flags, move_object_to_inventory-IsFair,
  player_set_flag-IsFair, placed-movable,
}
use ece_391_fall.World.Progress.Outcomes.{Safe, Safe-if, Safe-stay, Safe-over, Won}

-- A flag that needs no other.
pub plain_flag : (r f : ℕ) (w : World) → f < 3 → IsFair r w → IsFair r (player_set_flag f w)
plain_flag r f w small fair =
    player_set_flag-IsFair r f w (omega arith) (λ e. absurd (omega (arith, e)))
      (λ e. absurd (omega (arith, e))) fair

dew_line-IsFair : (r : ℕ) (w : World) → IsFair r w → IsFair r (dew_line w)
dew_line-IsFair r w fair = elim (Option-cases (w.loc mtn_dew)) [
  | inl h ↦ rw (h, dew_line) fair
  | inr (q, h) ↦ rw (h, dew_line) fair
]

buy_dew-Safe : (r : ℕ) (w : World) → IsFair r w → Safe (buy_dew r w)
unfolding buy_dew movable
buy_dew-Safe r w fair =
    Safe-if (not (r == evrt_vend)) _ _ (λ e. Safe-stay _ r _ fair)
      (λ e.
        Safe-if (at_hand w mtn_dew r) _ _ (λ e. Safe-stay _ r _ fair)
          (λ e. Safe-stay _ r _ (
            move_object_to_inventory-IsFair (λ f. f) r mtn_dew (omega arith) (dew_line w) refl
              (dew_line-IsFair r w fair))))

buy_yogurt-Safe : (r : ℕ) (w : World) → IsFair r w → Safe (buy_yogurt r w)
unfolding buy_yogurt
buy_yogurt-Safe r w fair =
    Safe-if (not (r == in_cocomr)) _ _ (λ e. Safe-stay _ r _ fair)
      (λ e.
        Safe-if (player_flag_is_set has_eaten w) _ _ (λ e. Safe-stay _ r _ fair)
          (λ e. Safe-stay _ r _ (plain_flag r has_eaten w (omega arith) fair)))

pub typed_cmd_buy-Safe :
    (r : ℕ) (arg : List ℕ) (w : World) → IsFair r w → Safe (typed_cmd_buy r arg w)
unfolding typed_cmd_buy
typed_cmd_buy-Safe r arg w fair =
    Safe-if (says "dew" arg) _ _ (λ e. buy_dew-Safe r w fair)
      (λ e.
        Safe-if (says "yogurt" arg) _ _ (λ e. buy_yogurt-Safe r w fair) (λ e. Safe-stay _ r _ fair))

-- An object is taken away, and another comes into the inventory.
pub exchange :
    (r o p : ℕ) (w : World)
    → o ≢ tux
    → p < 20
    → movable (w.player_flags 0) p ≡ true
    → IsFair r w
    → IsFair r (move_object_to_inventory p (remove_object o w))
exchange r o p w ne small may fair =
    move_object_to_inventory-IsFair (λ f. f) r p small (remove_object o w)
      (subst (λ f. movable (f 0) p ≡ true) (sym (remove_object-flags o w)) may)
      (remove_object-IsFair r o w ne fair)

-- With a battery at hand, the car is open.
pub battery_out :
    (r : ℕ) (w : World)
    → IsFair r w
    → (not (at_hand w batt_empty r) && not (at_hand w batt_full r)) ≡ false
    → movable (w.player_flags 0) batt_full ≡ true
unfolding movable
battery_out r w fair h = ground (
  arith,
  h,
  placed-movable r batt_empty inventory w (ground arith),
  placed-movable r batt_empty r w (ground arith),
  placed-movable r batt_full inventory w (ground arith),
  placed-movable r batt_full r w (ground arith),
  fair,
)

pub typed_cmd_charge-Safe :
    (r : ℕ) (arg : List ℕ) (w : World) → IsFair r w → Safe (typed_cmd_charge r arg w)
unfolding typed_cmd_charge
typed_cmd_charge-Safe r arg w fair =
    Safe-if (not (says "battery" arg)) _ _ (λ e. Safe-stay _ r _ fair)
      (λ e.
        Safe-if (not (at_hand w batt_empty r) && not (at_hand w batt_full r)) _ _
          (λ e. Safe-stay _ r _ fair)
          (λ battery.
            Safe-if (not (r == beck_mri)) _ _ (λ e. Safe-stay _ r _ fair)
              (λ e.
                Safe-if (at_hand w batt_full r) _ _ (λ e. Safe-stay _ r _ fair)
                  (λ e. Safe-stay _ r _ (
                    exchange r batt_empty batt_full w (ground arith) (omega arith)
                      (battery_out r w fair battery) fair)))))

-- With the C book in the inventory and Tux in the lab, all that they need was done.
doing-Won :
    (r : ℕ) (w : World)
    → IsFair r w
    → is_at w book_c inventory ≡ true
    → is_at w mp2 inventory ≡ true
    → is_at w tux in_391lab ≡ true
    → Won w
unfolding Won movable player_flag_is_set
doing-Won r w fair book mp tux_here =
    let eaten = placed-movable r book_c inventory w (ground arith) book fair in
    let lured : has lured_tux (w.player_flags 0) ≡ true =
      ground (arith, tux_here, fair.order.tux_home) in
    let fixed = fair.order.lured lured in
    let unlocked = fair.order.opened (ground (arith, fixed)) in
    ground (arith, book, mp, tux_here, eaten, lured, fixed, unlocked)

pub typed_cmd_do-Safe :
    (r : ℕ) (arg : List ℕ) (w : World) → IsFair r w → Safe (typed_cmd_do r arg w)
unfolding typed_cmd_do
typed_cmd_do-Safe r arg w fair =
    Safe-if (not (r == in_391lab)) _ _ (λ e. Safe-stay _ r _ fair)
      (λ e.
        Safe-if (not (says "391" arg) && not (says "mp2" arg)) _ _ (λ e. Safe-stay _ r _ fair)
          (λ e.
            Safe-if (not (is_at w book_c inventory)) _ _ (λ e. Safe-stay _ r _ fair)
              (λ book.
                Safe-if (not (is_at w mp2 inventory)) _ _ (λ e. Safe-stay _ r _ fair)
                  (λ mp.
                    Safe-if (not (is_at w tux in_391lab)) _ _ (λ e. Safe-stay _ r _ fair)
                      (λ e. Safe-over _ w (
                        doing-Won r w fair (ground (arith, book)) (ground (arith, mp))
                          (ground (arith, e))))))))

pub typed_cmd_drink-Safe :
    (r : ℕ) (arg : List ℕ) (w : World) → IsFair r w → Safe (typed_cmd_drink r arg w)
unfolding typed_cmd_drink
typed_cmd_drink-Safe r arg w fair =
    Safe-if (not (says "dew" arg)) _ _ (λ e. Safe-stay _ r _ fair)
      (λ e.
        Safe-if (not (at_hand w mtn_dew r)) _ _ (λ e. Safe-stay _ r _ fair)
          (λ e. Safe-stay _ r _ (remove_object-IsFair r mtn_dew w (ground arith) fair)))

pub typed_cmd_fix-Safe :
    (r : ℕ) (arg : List ℕ) (w : World) → IsFair r w → Safe (typed_cmd_fix r arg w)
unfolding typed_cmd_fix movable
typed_cmd_fix-Safe r arg w fair =
    Safe-if (not (says "gps" arg)) _ _ (λ e. Safe-stay _ r _ fair)
      (λ e.
        Safe-if (at_hand w gps_good r) _ _ (λ e. Safe-stay _ r _ fair)
          (λ e.
            Safe-if (not (at_hand w gps_bad r)) _ _ (λ e. Safe-stay _ r _ fair)
              (λ e.
                Safe-if (not (r == in_cleanr)) _ _ (λ e. Safe-stay _ r _ fair)
                  (λ e.
                    Safe-if (not (at_hand w gps_spec r)) _ _ (λ e. Safe-stay _ r _ fair)
                      (λ e. Safe-stay _ r _ (
                        exchange r gps_spec gps_good (remove_object gps_bad w) (ground arith)
                          (omega arith) refl
                          (remove_object-IsFair r gps_bad w (ground arith) fair)))))))

pub typed_cmd_flash-Safe :
    (r : ℕ) (arg : List ℕ) (w : World) → IsFair r w → Safe (typed_cmd_flash r arg w)
unfolding typed_cmd_flash movable
typed_cmd_flash-Safe r arg w fair =
    Safe-if (not (says "robot" arg)) _ _ (λ e. Safe-stay _ r _ fair)
      (λ e.
        Safe-if (not (at_hand w robot_dead r) && not (at_hand w robot_live r)) _ _
          (λ e. Safe-stay _ r _ fair)
          (λ e.
            Safe-if (not (r == in_395lab)) _ _ (λ e. Safe-stay _ r _ fair)
              (λ e.
                Safe-if (at_hand w robot_live r) _ _ (λ e. Safe-stay _ r _ fair)
                  (λ e.
                    Safe-stay _ r _ (
                      exchange r robot_dead robot_live w (ground arith) (omega arith) refl fair)))))

pub typed_cmd_sigh-Safe :
    (r : ℕ) (arg : List ℕ) (w : World) → IsFair r w → Safe (typed_cmd_sigh r arg w)
unfolding typed_cmd_sigh
typed_cmd_sigh-Safe r arg w fair =
    Safe-if (not (r == by_zas)) _ _ (λ e. Safe-stay _ r _ fair)
      (λ e. Safe-stay _ r _ (
        plain_flag r has_eaten (show_status "So sad... you lose your appetite." w) (omega arith)
          fair))

pub typed_cmd_wear-Safe :
    (r : ℕ) (arg : List ℕ) (w : World) → IsFair r w → Safe (typed_cmd_wear r arg w)
unfolding typed_cmd_wear
typed_cmd_wear-Safe r arg w fair =
    Safe-if (not (says "bunnysuit" arg)) _ _ (λ e. Safe-stay _ r _ fair)
      (λ e.
        Safe-if (not (at_hand w bunnysuit r)) _ _ (λ e. Safe-stay _ r _ fair)
          (λ e. Safe-stay _ r _ (
            plain_flag r wearing_suit (remove_object bunnysuit w) (omega arith)
              (remove_object-IsFair r bunnysuit w (ground arith) fair))))
