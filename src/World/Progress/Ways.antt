-- ===== src/World/Progress/Ways.antt =====
-- The moves of mp2/world.c between rooms end in a fair world.
use ece_391_fall.Prelude.{
  subst, ℕ, ◌%◌, ◌≡◌, ◌≢◌, refl, arith, some, Option-cases, Bool-cases, inl, inr, true, ◌==◌,
  ℕ_discrete, if◌then◌else◌,
}
use ece_391_fall.World.{
  World, rand, drawn, show_status, is_at, do_photo_swap, swap_circle, player_flag_is_set,
  wearing_suit, allow_edit,
}
use ece_391_fall.World.Rooms.{
  inventory, circle_n, by_cleanr, in_cleanr, by_395lab, in_395lab, csl_door, csl_lobby, beck_door,
  becklobby, mntl_lab1, cockpit, over_will,
}
use ece_391_fall.World.Things.{icard, robot_live, robot_dead}
use ece_391_fall.World.Moves.{
  go_to, move_into, no_way, reply, special_enter, try_to_enter, try_to_move_left, try_to_move_right,
}
use ece_391_fall.World.Progress.{allowed, leads, is_some, IsFair}
use ece_391_fall.World.Progress.Outcomes.{Safe, Safe-if, Safe-stay, IsFair-lead, IsFair-arrive}

move_into-Safe : (s : ℕ) (w : World) → IsFair s w → Safe (move_into s w)
unfolding move_into
move_into-Safe s w fair = elim (Bool-cases (s == circle_n)) [
  | inl e ↦ elim (Bool-cases (rand w % 2 == 0)) [
    | inl f ↦ rw (e, f) (Safe-stay _ s (do_photo_swap s swap_circle (drawn w)) fair)
    | inr f ↦ rw (e, f) (Safe-stay _ s (drawn w) fair)
  ]
  | inr e ↦ rw e (Safe-stay _ s w fair)
]

no_way-Safe : (r : ℕ) (w : World) → IsFair r w → Safe (no_way r w)
no_way-Safe r w fair = Safe-if (r == 0) _ _ (λ e. Safe-stay _ r _ fair) (λ e. Safe-stay _ r _ fair)

pub try_to_move_left-Safe : (r : ℕ) (w : World) → IsFair r w → Safe (try_to_move_left r w)
unfolding try_to_move_left
try_to_move_left-Safe r w fair = elim (Option-cases (w.left r)) [
  | inl e ↦ rw (e, try_to_move_left) (no_way-Safe r w fair)
  | inr (s, e) ↦
      rw (e, try_to_move_left)
        (move_into-Safe s w (IsFair-lead r s w (fair.roads.on_left r s e) fair))
]

pub try_to_move_right-Safe : (r : ℕ) (w : World) → IsFair r w → Safe (try_to_move_right r w)
unfolding try_to_move_right
try_to_move_right-Safe r w fair = elim (Option-cases (w.right r)) [
  | inl e ↦ rw (e, try_to_move_right) (no_way-Safe r w fair)
  | inr (s, e) ↦
      rw (e, try_to_move_right)
        (move_into-Safe s w (IsFair-lead r s w (fair.roads.on_right r s e) fair))
]

special_enter-Safe : (r : ℕ) (w : World) → IsFair r w → Safe (special_enter r w)
unfolding special_enter player_flag_is_set allowed
special_enter-Safe r w fair =
    Safe-if (r == by_cleanr) _ _
      (λ e.
        Safe-if (player_flag_is_set wearing_suit w) _ _
          (λ suit.
            Safe-stay _ in_cleanr w
              (IsFair-arrive r in_cleanr w (ground (arith, suit)) (ground arith) fair))
          (λ none. Safe-stay _ r _ fair))
      (λ e.
        Safe-if (r == by_395lab) _ _ (λ e. door in_395lab refl (ground arith))
          (λ e.
            Safe-if (r == csl_door) _ _ (λ e. door csl_lobby refl (ground arith))
              (λ e.
                Safe-if (r == beck_door) _ _
                  (λ e.
                    Safe-if (is_at w robot_live inventory) _ _
                      (λ e.
                        Safe-stay _ becklobby _
                          (IsFair-arrive r becklobby w refl (ground arith) fair))
                      (λ e.
                        Safe-if (is_at w robot_dead inventory) _ _ (λ e. Safe-stay _ r _ fair)
                          (λ e. Safe-stay _ r _ fair)))
                  (λ e.
                    Safe-if (r == mntl_lab1) _ _ (λ e. Safe-stay _ r _ fair)
                      (λ e.
                        Safe-if (r == cockpit) _ _ (λ e. Safe-stay _ r _ fair)
                          (λ e. Safe-stay _ r _ fair))))))
  where
    door :
        (s : ℕ)
        → allowed (w.player_flags 0) (is_some (w.enter cockpit)) s ≡ true
        → s ≢ inventory
        → Safe (
            if is_at w icard inventory
            then go_to s (show_status "You swiped your Icard." w)
            else reply "You need a valid Icard." allow_edit r w)
    door s lets ne =
        Safe-if (is_at w icard inventory) _ _
          (λ e. Safe-stay _ s _ (IsFair-arrive r s w lets ne fair)) (λ e. Safe-stay _ r _ fair)

-- The room that `enter` leads to.
entered : (r s : ℕ) (w : World) → w.enter r ≡ some s → IsFair r w → IsFair s w
unfolding leads allowed
entered r s w e fair = elim (ℕ_discrete r inventory) [
  | yes h ↦
      let may = fair.bag s (subst (λ a. w.enter a ≡ some s) h e) in
      IsFair-arrive r s w (ground (arith, may)) (ground (arith, may)) fair
  | no ne ↦ elim (ℕ_discrete r cockpit) [
    | yes h ↦
        let out : w.enter cockpit ≡ some s = subst (λ a. w.enter a ≡ some s) h e in
        let there : s ≡ over_will = fair.roads.flight s out in
        let fixed : allowed (w.player_flags 0) (is_some (w.enter cockpit)) cockpit ≡ true =
          subst (λ a. allowed (w.player_flags 0) (is_some (w.enter cockpit)) a ≡ true) h
            fair.here in
        IsFair-arrive r s w (ground (arith, there, fixed, out)) (ground (arith, there)) fair
    | no other ↦ IsFair-lead r s w (fair.roads.inside r s ne other e) fair
  ]
]

pub try_to_enter-Safe : (r : ℕ) (w : World) → IsFair r w → Safe (try_to_enter r w)
unfolding try_to_enter
try_to_enter-Safe r w fair = elim (Option-cases (w.enter r)) [
  | inl e ↦ rw (e, try_to_enter) (special_enter-Safe r w fair)
  | inr (s, e) ↦ rw (e, try_to_enter) (move_into-Safe s w (entered r s w e fair))
]
