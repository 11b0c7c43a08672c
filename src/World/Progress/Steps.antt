-- ===== src/World/Progress/Steps.antt =====
-- The operations of mp2/world.c that the commands are made of keep the world fair.
use ece_391_fall.Prelude.{
  ℕ, ◌%◌, ◌/◌, ◌^◌, ◌<◌, ◌≡◌, ◌≢◌, arith, Option, none, some, List, Bool, true, ◌&&◌, ◌||◌, ◌==◌,
  Bool-cases, Option-cases, inl, inr, update, update-same, subst, sym, ap, ◌∙◌, bit_or, sub32, sle,
}
use ece_391_fall.World.{
  World, points_to, remove_object, insert_object_at, insert_object, move_object_to_inventory,
  free_row, pick, pick_height, player_set_flag, has_eaten, wearing_suit, car_open, car_fixed,
  lured_tux,
}
use ece_391_fall.World.Rooms.{inventory, cockpit}
use ece_391_fall.World.Things.{tux}
use ece_391_fall.World.Flags.{has, has-set}
use ece_391_fall.World.Objects.Chains.{remove_object_links}
use ece_391_fall.World.Objects.Contents.{
  Linked, Holds, moved, remove_object-Holds, insert_object_at-Holds,
}
use ece_391_fall.World.Progress.{allowed, movable, Order, Fair, IsFair, is_some}
use ece_391_fall.World.Objects.{erase}

-- An object is taken away.
Order-remove :
    (word : ℕ) (ready : Bool) (loc : ℕ → Option ℕ) (o : ℕ)
    → o ≢ tux
    → Order word ready loc
    → Order word ready (update loc o none)
Order-remove word ready loc o ne order = record {
  word_small = order.word_small;
  tux_home = λ h. ground (arith, order.tux_home h);
  waiting = λ p hp h. ground (arith, order.waiting p hp h);
  opened = order.opened;
  lured = order.lured;
}

-- An object that may be put somewhere goes anywhere.
Order-put :
    (word : ℕ) (ready : Bool) (loc loc' : ℕ → Option ℕ) (o : ℕ)
    → ((p : ℕ) → p ≢ o → loc' p ≡ loc p)
    → movable word o ≡ true
    → Order word ready loc
    → Order word ready loc'
unfolding movable
Order-put word ready loc loc' o others may order = record {
  word_small = order.word_small;
  tux_home = λ h. ground (arith, may, h, others tux, order.tux_home h);
  waiting =
      λ p hp h. let apart : p ≢ o = ground (arith, may, h) in others p apart ∙ order.waiting p hp h;
  opened = order.opened;
  lured = order.lured;
}

-- The links and the objects' rooms change.
relink :
    (r : ℕ) (w : World) (contents next loc : ℕ → Option ℕ) (lists : ℕ → List ℕ)
    → Linked contents next loc lists
    → Order (w.player_flags 0) (is_some (w.enter cockpit)) loc
    → IsFair r w
    → Fair r contents next loc w.player_flags w.left w.enter w.right
relink r w contents next loc lists linked order fair = record {
  lists = lists;
  linked = linked;
  roads = fair.roads;
  order = order;
  here = fair.here;
  bag = fair.bag;
  back = fair.back;
}

pub remove_object-IsFair :
    (r o : ℕ) (w : World) → o ≢ tux → IsFair r w → IsFair r (remove_object o w)
remove_object-IsFair r o w ne fair =
    let (c, n, h) = remove_object_links o w in
    let lists : ℕ → List ℕ = λ q. erase o (fair.lists q) in
    let linked : Holds (remove_object o w) lists = remove_object-Holds o w fair.lists fair.linked in
    subst (IsFair r) (sym h) (
      relink r w c n _ lists (subst (λ v. Holds v lists) h linked)
        (Order-remove _ _ w.loc o ne fair.order) fair)

-- An object is put somewhere; G is what is done to the flags afterwards.
module _ (G : (ℕ → ℕ) → ℕ → ℕ) (r o : ℕ) (small : o < 20) where
  abbrev flagged : World → World
  flagged w = record w { player_flags = G w.player_flags }

  pub insert_object_at-IsFair :
      (q x y : ℕ) (w : World)
      → movable (G w.player_flags 0) o ≡ true
      → IsFair r (flagged w)
      → IsFair r (flagged (insert_object_at o q x y w))
  unfolding insert_object_at
  insert_object_at-IsFair q x y w may fair =
      let (c, n, h) = remove_object_links o w in
      let lists = moved o q fair.lists in
      let put : World → World = λ v. record v {
        x = update v.x o (x % 2 ^ 16);
        y = update v.y o (y % 2 ^ 16);
        loc = update v.loc o (some q);
        next = update v.next o (v.contents q);
        contents = update v.contents q (some o);
      } in
      let linked : Holds (put (remove_object o w)) lists =
        insert_object_at-Holds o q x y w fair.lists small fair.linked in
      subst (λ v. IsFair r (flagged v)) (sym (ap put h))
        (relink r (flagged w) _ _ _ lists (subst (λ v. Holds v lists) (ap put h) linked)
          (Order-put _ _ w.loc _ o (λ p ne. ground (arith, ne)) may fair.order) fair)

  -- The object may be put somewhere in a fair world; drawing a number keeps that.
  abbrev Puts : World → Type 0
  Puts w = IsFair r (flagged w) × (movable (G w.player_flags 0) o ≡ true)

  pick-Puts : (range : ℕ) (w : World) → Puts w → Puts (pick range w).1
  pick-Puts range w h = elim (Bool-cases (sle range 0)) [ inl e ↦ rw e h | inr e ↦ rw e h ]

  pick_height-Puts : (space img_ht : ℕ) (w : World) → Puts w → Puts (pick_height space img_ht w).1
  pick_height-Puts space img_ht w h = elim (Bool-cases (sle (sub32 (space / 4) img_ht) 0)) [
    | inl e ↦ rw e (pick-Puts (sub32 space img_ht) w h)
    | inr e ↦ rw e h
  ]

  pub insert_object-IsFair :
      (q : ℕ) (w : World)
      → movable (G w.player_flags 0) o ≡ true
      → IsFair r (flagged w)
      → IsFair r (flagged (insert_object o q w))
  unfolding insert_object
  insert_object-IsFair q w may fair =
      let photo = w.photo_size (w.view q) in
      let img = w.image_size (w.image o) in
      let width : ℕ = sub32 photo.0 img.0 in
      let h1 = pick-Puts width w (fair, may) in
      let h2 = pick_height-Puts photo.1 img.1 (pick width w).1 h1 in
      insert_object_at-IsFair q (pick width w).0 (pick_height photo.1 img.1 (pick width w).1).0 _
        h2.1 h2.0

  pub move_object_to_inventory-IsFair :
      (w : World)
      → movable (G w.player_flags 0) o ≡ true
      → IsFair r (flagged w)
      → IsFair r (flagged (move_object_to_inventory o w))
  unfolding move_object_to_inventory
  move_object_to_inventory-IsFair w may fair = elim (Option-cases (free_row 5 10 w)) [
    | inl e ↦ rw (e, move_object_to_inventory) (insert_object-IsFair inventory w may fair)
    | inr (place, e) ↦
        rw (e, move_object_to_inventory)
          (insert_object_at-IsFair inventory place.0 place.1 w may fair)
  ]

-- A flag that is set later than those it needs.
pub player_set_flag-IsFair :
    (r f : ℕ) (w : World)
    → f < 5
    → ((f ≡ car_fixed) → has car_open (w.player_flags 0) ≡ true)
    → ((f ≡ lured_tux) → (has car_fixed (w.player_flags 0) && is_some (w.enter cockpit)) ≡ true)
    → IsFair r w
    → IsFair r (player_set_flag f w)
unfolding player_set_flag allowed movable
player_set_flag-IsFair r f w small need lure fair =
    let word : ℕ = w.player_flags 0 in
    let after : (g : ℕ) → g < 5 → has g (bit_or word (2 ^ f)) ≡ (f == g || has g word) =
      λ g hg. (has-set word f g fair.order.word_small small hg).0 in
    let f0 : f / 32 ≡ 0 = omega arith in
    let f1 : f % 32 ≡ f = omega arith in
    let eaten = after has_eaten (omega arith) in
    let suit = after wearing_suit (omega arith) in
    let unlocked = after car_open (omega arith) in
    let fixed = after car_fixed (omega arith) in
    let tux = after lured_tux (omega arith) in
    rw (f0, f1, update-same w.player_flags 0 (bit_or word (2 ^ f)))
      (record {
        lists = fair.lists;
        linked = fair.linked;
        roads = fair.roads;
        order = record {
          word_small = (has-set word f 0 fair.order.word_small small (omega arith)).1;
          tux_home = λ h. ground (arith, tux, h, fair.order.tux_home);
          waiting = λ o ho h. ground (arith, eaten, unlocked, h, fair.order.waiting o ho);
          opened = λ h. ground (arith, unlocked, fixed, h, need, fair.order.opened);
          lured = λ h. ground (arith, tux, fixed, h, lure, fair.order.lured);
        };
        here = ground (arith, fair.here, suit, fixed);
        bag = λ s h. ground (arith, fair.bag s h, suit, fixed);
        back = fair.back;
      })

pub remove_object-flags : (o : ℕ) (w : World) → (remove_object o w).player_flags ≡ w.player_flags
remove_object-flags o w = let (c, n, h) = remove_object_links o w in ap (λ v. v.player_flags) h

-- An object that stands in some room may be put anywhere.
pub placed-movable :
    (r o q : ℕ) (w : World)
    → o ≢ tux
    → points_to (w.loc o) q ≡ true
    → IsFair r w
    → movable (w.player_flags 0) o ≡ true
placed-movable r o q w ne at fair = elim (Bool-cases (movable (w.player_flags 0) o)) [
  | inl e ↦ e
  | inr e ↦ absurd (ground (arith, at, fair.order.waiting o ne e))
]
