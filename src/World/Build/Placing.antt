-- ===== src/World/Build/Placing.antt =====
-- What the loop of build_world in mp2/world.c makes of the table of objects.
use Prim.Native.String.{String}
use ece_391_fall.Prelude.{
  ℕ, ◌/◌, ◌%◌, ◌^◌, ◌<◌, ◌≡◌, refl, ap, fun_ext, ◌∙◌, subst, arith, inl, inr, Option, none, some,
  List, [], ◌∷◌, Bool, true, false, not, ◌&&◌, ◌||◌, ltb, leb, Bool-cases, Option-cases, update,
  update-same, sle, sub32,
}
use ece_391_fall.World.{World, is_null, pick, pick_height, insert_object, insert_object_at}
use ece_391_fall.World.ObjectTable.{ObjectData}
use ece_391_fall.World.Objects.Chains.{Chain-update, remove_absent}
use ece_391_fall.World.Objects.Contents.{Holds, moved, insert_object_at-Holds}
use ece_391_fall.World.Build.{set_up_object, place_object, build_objects, taken}
use ece_391_fall.World.Build.Tables.{Reads}

-- Only the numbers that rand returns differ.
abbrev redrawn : World → (ℕ → ℕ) → World
redrawn w random = record w { random = random }

pick_lem :
    (range : ℕ) (w : World) → (v : ℕ) × (random : ℕ → ℕ) × (pick range w ≡ (v, redrawn w random))
pick_lem range w = elim (Bool-cases (sle range 0)) [
  | inl e ↦ rw e (0, w.random, refl)
  | inr e ↦ rw e (_, _, refl)
]

pick_height_lem :
    (space img_ht : ℕ) (w : World)
    → (v : ℕ) × (random : ℕ → ℕ) × (pick_height space img_ht w ≡ (v, redrawn w random))
pick_height_lem space img_ht w = elim (Bool-cases (sle (sub32 (space / 4) img_ht) 0)) [
  | inl e ↦ rw e (pick_lem (sub32 space img_ht) w)
  | inr e ↦ rw e (_, _, refl)
]

-- insert_object is insert_object_at at some place.
insert_object_lem :
    (o r : ℕ) (w : World)
    → (x : ℕ) × (y : ℕ) × (random : ℕ → ℕ) × (insert_object o r w
        ≡ insert_object_at o r x y (redrawn w random))
unfolding insert_object
insert_object_lem o r w =
    let photo = w.photo_size (w.view r) in
    let img = w.image_size (w.image o) in
    let (x, random1, e1) = pick_lem (sub32 photo.0 img.0) w in
    let (y, random2, e2) = pick_height_lem photo.1 img.1 (redrawn w random1) in
    (x, y, random2, rw (e1, e2) refl)

-- A new object in a room.
abbrev put_new : ℕ → ℕ → ℕ → ℕ → World → World
put_new o r x y w = record w {
  x = update w.x o (x % 2 ^ 16);
  y = update w.y o (y % 2 ^ 16);
  loc = update w.loc o (some r);
  next = update w.next o (w.contents r);
  contents = update w.contents r (some o);
}

insert_object_at_new :
    (o r x y : ℕ) (w : World) → w.loc o ≡ none → insert_object_at o r x y w ≡ put_new o r x y w
unfolding insert_object_at
insert_object_at_new o r x y w e = ap (put_new o r x y) (remove_absent o w e)

-- Where the row puts its object.
unfoldable pub settle : ObjectData → (ℕ → Option ℕ) → ℕ → Option ℕ
settle d loc = update loc d.id d.room

-- The world has the object of the row, and else is as before.
record Settled (d : ObjectData) (w w' : World) : Type 0 where
  lists : ℕ → List ℕ
  holds : Holds w' lists
  placed : (o : ℕ) → w'.loc o ≡ settle d w.loc o
  name : w'.object_name ≡ update w.object_name d.id (some d.name)
  roads : (w'.left ≡ w.left) × (w'.enter ≡ w.enter) × (w'.right ≡ w.right)
  others : (w'.player_flags ≡ w.player_flags) × (w'.swap_photo ≡ w.swap_photo)

set_up_object-Holds :
    (d : ObjectData) (img : ℕ) (w : World) (lists : ℕ → List ℕ)
    → w.loc d.id ≡ none
    → Holds w lists
    → Holds (set_up_object d img w) lists
set_up_object-Holds d img w lists free holds = record {
  chain = λ r.
      Chain-update w.next d.id none (w.contents r) (lists r)
        (ground (arith, holds.located r d.id, free)) (holds.chain r);
  once = holds.once;
  located = λ r o. ground (arith, holds.located r o, free);
  small = holds.small;
}

put_new-Settled :
    (d : ObjectData) (img r x y : ℕ) (random : ℕ → ℕ) (w : World) (lists : ℕ → List ℕ)
    → d.id < 20
    → d.room ≡ some r
    → w.loc d.id ≡ none
    → Holds w lists
    → Settled d w (insert_object_at d.id r x y (redrawn (set_up_object d img w) random))
unfolding settle
put_new-Settled d img r x y random w lists small e free holds =
    let w0 = redrawn (set_up_object d img w) random in
    let same = insert_object_at_new d.id r x y w0 (update-same w.loc d.id none) in
    let inside =
      insert_object_at-Holds d.id r x y w0 lists small
        (set_up_object-Holds d img w lists free holds) in
    rw same (record {
      lists = moved d.id r lists;
      holds = subst (λ v. Holds v (moved d.id r lists)) same inside;
      placed = λ o. ground (arith, e);
      name = refl;
      roads = (refl, refl, refl);
      others = (refl, refl);
    })

place_object-Settled :
    (d : ObjectData) (img : ℕ) (w : World) (lists : ℕ → List ℕ)
    → d.id < 20
    → w.loc d.id ≡ none
    → Holds w lists
    → Settled d w (place_object d (set_up_object d img w))
unfolding settle place_object
place_object-Settled d img w lists small free holds = elim (Option-cases d.room) [
  | inl e ↦ rw e (record {
    lists = lists;
    holds = set_up_object-Holds d img w lists free holds;
    placed = λ o. refl;
    name = refl;
    roads = (refl, refl, refl);
    others = (refl, refl);
  })
  | inr (r, e) ↦ elim (Option-cases d.place) [
    | inr (p, f) ↦
        rw (e, f)
          (put_new-Settled (record d { room = some r; place = some p }) img r p.0 p.1 w.random w
            lists small refl free holds)
    | inl f ↦
        let d' : ObjectData = record d { room = some r; place = none } in
        let (x, y, random, h) = insert_object_lem d.id r (set_up_object d' img w) in
        rw (e, f, h) (put_new-Settled d' img r x y random w lists small refl free holds)
  ]
]

-- The ids are in range, there is none twice, and no object was anywhere.
unfoldable pub objects_fit : List ObjectData → (ℕ → Option String) → (ℕ → Option ℕ) → Bool
unfolding settle
objects_fit [] names loc = true
objects_fit (d ∷ ds) names loc =
    ltb d.id 20
    && not (taken (names d.id))
    && is_null (loc d.id)
    && objects_fit ds (update names d.id (some d.name)) (settle d loc)

unfoldable pub settle_all : List ObjectData → (ℕ → Option ℕ) → ℕ → Option ℕ
unfolding settle
settle_all [] loc = loc
settle_all (d ∷ ds) loc = settle_all ds (settle d loc)

-- The world has the objects of the table, and else is as before.
pub record Furnished (ds : List ObjectData) (w w' : World) : Type 0 where
  pub lists : ℕ → List ℕ
  pub holds : Holds w' lists
  pub placed : w'.loc ≡ settle_all ds w.loc
  pub roads : (w'.left ≡ w.left) × (w'.enter ≡ w.enter) × (w'.right ≡ w.right)
  pub others : (w'.player_flags ≡ w.player_flags) × (w'.swap_photo ≡ w.swap_photo)

Furnished-cons :
    (d : ObjectData) (ds : List ObjectData) (w w1 w' : World)
    → Settled d w w1
    → Furnished ds w1 w'
    → Furnished (d ∷ ds) w w'
unfolding settle_all
Furnished-cons d ds w w1 w' one rest = record {
  lists = rest.lists;
  holds = rest.holds;
  placed = rest.placed ∙ ap (settle_all ds) (fun_ext one.placed);
  roads = (rest.roads.0 ∙ one.roads.0, rest.roads.1 ∙ one.roads.1, rest.roads.2 ∙ one.roads.2);
  others = (rest.others.0 ∙ one.others.0, rest.others.1 ∙ one.others.1);
}

module _ (read_photo read_obj_image : String → Option ℕ) (images : Reads read_obj_image) where
  pub build_objects-Furnished :
      (ds : List ObjectData) (w : World) (lists : ℕ → List ℕ)
      → objects_fit ds w.object_name w.loc ≡ true
      → Holds w lists
      → (w' : World) × (build_objects read_photo read_obj_image ds w ≡ some w') × Furnished ds w w'
  unfolding build_objects objects_fit settle_all
  build_objects-Furnished [] w lists fit holds = (
    w,
    refl,
    record {
      lists = lists;
      holds = holds;
      placed = refl;
      roads = (refl, refl, refl);
      others = (refl, refl);
    },
  )
  build_objects-Furnished (d ∷ ds) w lists fit holds =
      let (img, read) = images d.filename in
      let guard : (leb 20 d.id || taken (w.object_name d.id)) ≡ false = ground (arith, fit) in
      let w1 = place_object d (set_up_object d img w) in
      let free : w.loc d.id ≡ none = ground (arith, fit) in
      let one = place_object-Settled d img w lists (ground (arith, fit)) free holds in
      let loc1 : w1.loc ≡ settle d w.loc = fun_ext one.placed in
      let later : objects_fit ds w1.object_name w1.loc ≡ true =
        rw (one.name, loc1) (ground (arith, fit)) in
      let (w', e, rest) = build_objects-Furnished ds w1 one.lists later one.holds in
      (w', rw (guard, read) e, Furnished-cons d ds w w1 w' one rest)
