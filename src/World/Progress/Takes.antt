-- ===== src/World/Progress/Takes.antt =====
-- drop, get and go of mp2/world.c end in a fair world.
use ece_391_fall.Prelude.{
  ℕ, ◌<◌, ◌≡◌, ◌≢◌, refl, arith, Option, none, some, List, Option-cases, Bool-cases, inl, inr, Bool,
  true, false, not, ◌&&◌, ◌||◌, ◌==◌, ℕ_discrete, if◌then◌else◌, subst, sym, ◌∙◌,
}
use ece_391_fall.World.{
  World, Outcome, says, is_at, points_to, remove_object, insert_object, is_null, find_in_room,
  player_flag_is_set, has_eaten, car_open, car_fixed, lured_tux,
}
use ece_391_fall.World.Rooms.{inventory, reserve, car_site, allerton, willard, rem_plane}
use ece_391_fall.World.Things.{
  tux, book_c, book_wode, batt_empty, batt_full, batt_car, gps_bad, gps_good, mimo_card,
}
use ece_391_fall.World.Objects.{mem}
use ece_391_fall.World.Find.{find_in_room-first_named, mem-first_named}
use ece_391_fall.World.Commands.{
  standing, hint, battery_get, typed_cmd_drop, obj_special_get, take_object, get_from,
  typed_cmd_get, no_car, go_allerton, go_willard, go_campus, typed_cmd_go,
}
use ece_391_fall.World.Progress.{movable, allowed, IsFair}
use ece_391_fall.World.Progress.Steps.{
  remove_object-IsFair, remove_object-flags, insert_object-IsFair, move_object_to_inventory-IsFair,
  placed-movable,
}
use ece_391_fall.World.Progress.Outcomes.{Safe, Safe-if, Safe-stay, IsFair-arrive}

-- The command has an outcome, and it is safe.
abbrev pub Ends : Option Outcome → Type 0
Ends p = (out : Outcome) × (p ≡ some out) × Safe out

-- An object that find_in_room finds is one of the objects, and is in the room.
found :
    (r src : ℕ) (arg : List ℕ) (w : World) (o : ℕ)
    → find_in_room src arg w ≡ some o
    → IsFair r w
    → (o < 20) × (points_to (w.loc o) src ≡ true)
found r src arg w o h fair =
    let inside : mem o (fair.lists src) ≡ true =
      mem-first_named arg w (fair.lists src) o
        (sym (find_in_room-first_named src arg w fair.lists fair.linked) ∙ h) in
    (fair.linked.small src o inside, sym (fair.linked.located src o) ∙ inside)

-- What is in the inventory may be put anywhere; Tux is there only when he is lured.
carried-movable :
    (r o : ℕ) (w : World)
    → points_to (w.loc o) inventory ≡ true
    → IsFair r w
    → movable (w.player_flags 0) o ≡ true
unfolding movable
carried-movable r o w at fair = elim (ℕ_discrete o tux) [
  | yes e ↦
      let there : points_to (w.loc tux) inventory ≡ true =
        subst (λ a. points_to (w.loc a) inventory ≡ true) e at in
      ground (arith, e, there, fair.order.tux_home)
  | no ne ↦ placed-movable r o inventory w ne at fair
]

-- The room in which the player stands is there.
standing-some : (r : ℕ) (w : World) → IsFair r w → (s : ℕ) × (standing r w ≡ some s)
standing-some r w fair = elim (Option-cases (standing r w)) [
  | inl e ↦ absurd (ground (arith, e, fair.back))
  | inr h ↦ h
]

hint-Safe :
    (r o dest : ℕ) (w : World)
    → o < 20
    → movable (w.player_flags 0) o ≡ true
    → IsFair r w
    → IsFair r (insert_object o dest (hint o r w))
hint-Safe r o dest w small may fair =
    elim (Bool-cases ((o == batt_full && r == car_site) || (o == mimo_card && r == rem_plane))) [
      | inl e ↦ rw (e, hint) (insert_object-IsFair (λ f. f) r o small dest _ may fair)
      | inr e ↦ rw (e, hint) (insert_object-IsFair (λ f. f) r o small dest w may fair)
    ]

pub typed_cmd_drop-Ends :
    (r : ℕ) (arg : List ℕ) (w : World) → IsFair r w → Ends (typed_cmd_drop r arg w)
unfolding typed_cmd_drop
typed_cmd_drop-Ends r arg w fair = elim (Option-cases (find_in_room inventory arg w)) [
  | inl e ↦ rw (e, typed_cmd_drop) (_, refl, Safe-stay _ r _ fair)
  | inr (o, e) ↦
      let (small, at) = found r inventory arg w o e fair in
      let (dest, there) = standing-some r w fair in
      rw (e, there, typed_cmd_drop)
        (_, refl, Safe-stay _ r _ (hint-Safe r o dest w small (carried-movable r o w at fair) fair))
]

-- What obj_special_get leaves: a fair world, and an object that may be taken.
unfoldable Special : ℕ → Option ℕ × World → Type 0
Special r p =
    IsFair r p.1 × ((o : ℕ) → p.0 ≡ some o → (o < 20) × (movable (p.1.player_flags 0) o ≡ true))

Special-if :
    (b : Bool) (r : ℕ) (p q : Option ℕ × World)
    → (b ≡ true → Special r p)
    → (b ≡ false → Special r q)
    → Special r (if b then p else q)
Special-if true r p q h h' = h refl
Special-if false r p q h h' = h' refl

Special-some :
    (r o : ℕ) (w : World)
    → o < 20
    → movable (w.player_flags 0) o ≡ true
    → IsFair r w
    → Special r (some o, w)
unfolding Special
Special-some r o w small may fair = (fair, λ p e. ground (arith, small, may, e))

Special-none : (r : ℕ) (w : World) → IsFair r w → Special r (none, w)
unfolding Special
Special-none r w fair = (fair, λ p e. absurd (ground (arith, e)))

battery_get-Special : (r src : ℕ) (w : World) → IsFair r w → Special r (battery_get src w)
unfolding battery_get movable
battery_get-Special r src w fair =
    Special-if (src == car_site && is_at w batt_car src) r _ _
      (λ e.
        Special-some r batt_empty (remove_object batt_car w) (omega arith)
          (subst (λ f. movable (f 0) batt_empty ≡ true) (sym (remove_object-flags batt_car w))
            (ground (arith, e, placed-movable r batt_car src w (ground arith), fair)))
          (remove_object-IsFair r batt_car w (ground arith) fair))
      (λ e. Special-none r w fair)

obj_special_get-Special :
    (r src : ℕ) (arg : List ℕ) (w : World) → IsFair r w → Special r (obj_special_get src arg w)
unfolding obj_special_get player_flag_is_set movable
obj_special_get-Special r src arg w fair =
    let battery = battery_get-Special r src w fair in
    Special-if (src == reserve && says "book" arg) r _ _
      (λ e.
        Special-if (player_flag_is_set has_eaten w) r _ _
          (λ eaten.
            Special-if (is_null (w.loc book_c)) r _ _
              (λ e. Special-some r book_c _ (omega arith) (ground (arith, eaten)) fair)
              (λ e. battery))
          (λ e.
            Special-if (is_null (w.loc book_wode)) r _ _
              (λ e. Special-some r book_wode _ (omega arith) refl fair) (λ e. battery)))
      (λ e. battery)

take_object-Safe :
    (r o : ℕ) (w : World)
    → o < 20
    → (o ≢ tux → movable (w.player_flags 0) o ≡ true)
    → IsFair r w
    → Safe (take_object o r w)
unfolding take_object player_flag_is_set movable
take_object-Safe r o w small may fair =
    Safe-if (o == tux && not (player_flag_is_set lured_tux w)) _ _ (λ e. Safe-stay _ r _ fair)
      (λ e. Safe-stay _ r _ (
        move_object_to_inventory-IsFair (λ f. f) r o small w
          (elim (ℕ_discrete o tux) [ yes h ↦ ground (arith, h, e) | no ne ↦ may ne ]) fair))

get_from-Safe :
    (src : ℕ) (arg : List ℕ) (r : ℕ) (w : World) → IsFair r w → Safe (get_from src arg r w)
unfolding get_from Special
get_from-Safe src arg r w fair =
    let (fair1, may) = obj_special_get-Special r src arg w fair in
    let w1 = (obj_special_get src arg w).1 in
    elim (Option-cases (obj_special_get src arg w).0) [
      | inr (o, e) ↦
          rw (e, get_from) (take_object-Safe r o w1 (may o e).0 (λ ne. (may o e).1) fair1)
      | inl e ↦ elim (Option-cases (find_in_room src arg w1)) [
        | inl f ↦ rw (e, f, get_from) (Safe-stay _ r _ fair1)
        | inr (o, f) ↦
            let (small, at) = found r src arg w1 o f fair1 in
            rw (e, f, get_from)
              (take_object-Safe r o w1 small (λ ne. placed-movable r o src w1 ne at fair1) fair1)
      ]
    ]

pub typed_cmd_get-Ends :
    (r : ℕ) (arg : List ℕ) (w : World) → IsFair r w → Ends (typed_cmd_get r arg w)
unfolding typed_cmd_get
typed_cmd_get-Ends r arg w fair =
    let (src, there) = standing-some r w fair in
    rw (there, typed_cmd_get) (get_from src arg r w, refl, get_from-Safe src arg r w fair)

no_car-Safe : (r : ℕ) (w : World) → IsFair r w → Safe (no_car r w)
unfolding player_flag_is_set
no_car-Safe r w fair =
    Safe-if (player_flag_is_set car_open w) _ _ (λ e. Safe-stay _ r _ fair)
      (λ e. Safe-stay _ r _ fair)

go_allerton-Safe : (r : ℕ) (w : World) → IsFair r w → Safe (go_allerton r w)
unfolding go_allerton player_flag_is_set allowed
go_allerton-Safe r w fair =
    Safe-if (r == allerton) _ _ (λ e. Safe-stay _ r _ fair)
      (λ e.
        Safe-if (not (r == willard) && not (r == car_site)) _ _ (λ e. Safe-stay _ r _ fair)
          (λ e.
            Safe-if (not (player_flag_is_set car_fixed w)) _ _ (λ e. no_car-Safe r w fair)
              (λ fixed.
                Safe-if (not (is_at w gps_good inventory)) _ _
                  (λ e.
                    Safe-if (is_at w gps_bad inventory) _ _ (λ e. Safe-stay _ r _ fair)
                      (λ e. Safe-stay _ r _ fair))
                  (λ e.
                    Safe-stay _ allerton _
                      (IsFair-arrive r allerton w (ground (arith, fixed)) (ground arith) fair)))))

go_willard-Safe : (r : ℕ) (w : World) → IsFair r w → Safe (go_willard r w)
unfolding go_willard player_flag_is_set allowed
go_willard-Safe r w fair =
    Safe-if (r == willard) _ _ (λ e. Safe-stay _ r _ fair)
      (λ e.
        Safe-if (not (r == allerton) && not (r == car_site)) _ _ (λ e. Safe-stay _ r _ fair)
          (λ e.
            Safe-if (not (player_flag_is_set car_fixed w)) _ _ (λ e. no_car-Safe r w fair)
              (λ fixed.
                Safe-stay _ willard _
                  (IsFair-arrive r willard w (ground (arith, fixed)) (ground arith) fair))))

go_campus-Safe : (r : ℕ) (w : World) → IsFair r w → Safe (go_campus r w)
unfolding go_campus allowed
go_campus-Safe r w fair =
    Safe-if (r == car_site) _ _ (λ e. Safe-stay _ r _ fair)
      (λ e.
        Safe-if (not (r == allerton) && not (r == willard)) _ _ (λ e. Safe-stay _ r _ fair)
          (λ e. Safe-stay _ car_site _ (IsFair-arrive r car_site w refl (ground arith) fair)))

pub typed_cmd_go-Safe :
    (r : ℕ) (arg : List ℕ) (w : World) → IsFair r w → Safe (typed_cmd_go r arg w)
unfolding typed_cmd_go
typed_cmd_go-Safe r arg w fair =
    Safe-if (says "allerton" arg) _ _ (λ e. go_allerton-Safe r w fair)
      (λ e.
        Safe-if (says "willard" arg || says "airport" arg) _ _ (λ e. go_willard-Safe r w fair)
          (λ e.
            Safe-if (says "campus" arg) _ _ (λ e. go_campus-Safe r w fair)
              (λ e. Safe-stay _ r _ fair)))
