-- ===== src/World/Objects/Contents.antt =====
-- remove_object and insert_object_at of mp2/world.c on the lists of the objects in the rooms.
use ece_391_fall.Prelude.{
  ℕ, Option, ◌<◌, ◌≤◌, ◌≡◌, ◌≢◌, inl, inr, refl, arith, List, ◌∷◌, true, false, ◌==◌, ==_iff,
  Bool-cases, if◌then◌else◌, length, update, update-same, subst, sym, fun_ext, Option-cases,
  ℕ_discrete, ap,
}
use ece_391_fall.World.{
  World, head, store_link, walk, unlink, remove_object, insert_object_at, points_to,
}
use ece_391_fall.World.Objects.{
  mem, distinct, erase, mem-erase, erase_absent, distinct-erase, length_small,
}
use ece_391_fall.World.Objects.Chains.{
  Chain, Chain-update, link_to, unlink_lem, unlink_links, store_here, store_there, remove_absent,
  remove_present,
}

-- The links and the objects' rooms stand for the lists of the objects in each room.
pub record Linked (contents next loc : ℕ → Option ℕ) (lists : ℕ → List ℕ) : Type 0 where
  pub chain : (r : ℕ) → Chain next (contents r) (lists r)
  pub once : (r : ℕ) → distinct (lists r) ≡ true
  pub located : (r o : ℕ) → mem o (lists r) ≡ points_to (loc o) r
  pub small : (r o : ℕ) → mem o (lists r) ≡ true → o < 20

abbrev pub Holds : World → (ℕ → List ℕ) → Type 0
Holds w lists = Linked w.contents w.next w.loc lists

module _ (w : World) (lists : ℕ → List ℕ) (holds : Holds w lists) where
  -- An object is in one room only.
  alone : (o r q : ℕ) → r ≢ q → mem o (lists r) ≡ true → mem o (lists q) ≡ false
  alone o r q ne h = ground (arith, h, holds.located r o, holds.located q o)

  pub length_room : (r : ℕ) → length (lists r) ≤ 20
  length_room r = length_small 20 (lists r) (holds.once r) (holds.small r)

  unlink_room :
      (o r : ℕ)
      → mem o (lists r) ≡ true
      → unlink walk (head r) (w.contents r) o w
        ≡ store_link (link_to (head r) (lists r) o) (w.next o) w
  unlink_room o r h =
      unlink_lem walk (head r) (w.contents r) (lists r) o w (omega (arith, length_room r)) h
        (holds.chain r)

  -- After remove_object's loop, every room's chain is without the object.
  unlink-Chain :
      (o r q : ℕ)
      → mem o (lists r) ≡ true
      → let w' = unlink walk (head r) (w.contents r) o w in
        Chain w'.next (w'.contents q) (erase o (lists q))
  unlink-Chain o r q h = rw (unlink_room o r h) (elim (ℕ_discrete r q) [
    | yes e ↦
        subst
          (λ a.
            Chain (store_link (link_to (head r) (lists r) o) (w.next o) w).next
              ((store_link (link_to (head r) (lists r) o) (w.next o) w).contents a)
              (erase o (lists a)))
          e (store_here w r o (lists r) h (holds.once r) (holds.chain r))
    | no ne ↦
        rw (erase_absent o (lists q) (alone o r q ne h))
          (store_there w r q o (lists r) (lists q) ne (λ a. alone a r q ne) (holds.chain q))
  ])

-- remove_object takes the object out of every room's list, and marks it as nowhere.
pub remove_object-Holds :
    (o : ℕ) (w : World) (lists : ℕ → List ℕ)
    → Holds w lists
    → Holds (remove_object o w) (λ r. erase o (lists r))
unfolding remove_object
remove_object-Holds o w lists holds = elim (Option-cases (w.loc o)) [
  | inl e ↦ rw (remove_absent o w e) (
      subst (λ l. Holds w l)
        (fun_ext λ r. sym (erase_absent o (lists r) (ground (arith, e, holds.located r o)))) holds)
  | inr (r, e) ↦
      let inside : mem o (lists r) ≡ true = ground (arith, e, holds.located r o) in
      let (c, n, same) = unlink_links walk (head r) (w.contents r) o w in
      rw (remove_present o r w e) (record {
        chain = λ q. unlink-Chain w lists holds o r q inside;
        once = λ q. distinct-erase o (lists q) (holds.once q);
        located = λ q p. ground (
          arith,
          ap (λ v. v.loc p) same,
          mem-erase o p (lists q) (holds.once q),
          holds.located q p,
        );
        small =
            λ q p h. holds.small q p (ground (arith, h, mem-erase o p (lists q) (holds.once q)));
      })
]

-- The lists after the object went to the front of a room.
abbrev pub moved : ℕ → ℕ → (ℕ → List ℕ) → ℕ → List ℕ
moved o r lists q = if r == q then o ∷ erase o (lists q) else erase o (lists q)

-- Where the links of the rooms and objects stand for lists, insert_object_at of one of the 20 objects
-- leaves links that stand for the same lists, with the object taken out of all of them and put
-- in front of the list of its new room.
pub insert_object_at-Holds :
    (o r x y : ℕ) (w : World) (lists : ℕ → List ℕ)
    → o < 20
    → Holds w lists
    → Holds (insert_object_at o r x y w) (moved o r lists)
unfolding insert_object_at Chain mem distinct
insert_object_at-Holds o r x y w lists small holds =
    let w1 = remove_object o w in
    let h1 = remove_object-Holds o w lists holds in
    let gone : (q : ℕ) → mem o (erase o (lists q)) ≡ false =
      λ q. ground (arith, mem-erase o o (lists q) (holds.once q)) in
    let behind : (q : ℕ)
        → Chain (update w1.next o (w1.contents r)) (w1.contents q) (erase o (lists q)) =
      λ q.
        Chain-update w1.next o (w1.contents r) (w1.contents q) (erase o (lists q)) (gone q)
          (h1.chain q) in
    record {
      chain = λ q. elim (Bool-cases (r == q)) [
        | inl e ↦
            rw (e, update-same w1.next o (w1.contents r))
              (
                refl,
                subst
                    (λ a.
                      Chain (update w1.next o (w1.contents r)) (w1.contents a) (erase o (lists q)))
                    (sym ((==_iff r q).0 e)) (behind q),
              )
        | inr e ↦ rw e (behind q)
      ];
      once = λ q. ground (arith, gone q, h1.once q);
      located = λ q p. ground (arith, h1.located q p);
      small = λ q p h. ground (arith, h1.small q p, h);
    }
