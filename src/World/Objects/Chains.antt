-- ===== src/World/Objects/Chains.antt =====
-- The walk of remove_object of mp2/world.c along the links of a room.
use ece_391_fall.Prelude.{
  ℕ, zero, suc, ◌<◌, ◌≡◌, ◌≢◌, inl, inr, refl, arith, Option, none, some, List, [], ◌∷◌, true,
  false, ◌==◌, ==_iff, Bool-cases, if◌then◌else◌, length, update, update-same, update-other, subst,
  sym, fun_ext, Option-cases, ap, ◌∙◌,
}
use ece_391_fall.World.{World, Link, head, after, store_link, walk, unlink, remove_object}
use ece_391_fall.World.Objects.{mem, distinct, erase}

-- The `next` links lead from `p` through the objects of the list to NULL.
unfoldable pub Chain : (ℕ → Option ℕ) → Option ℕ → List ℕ → Type 0
Chain next p [] = p ≡ none
Chain next p (x ∷ xs) = (p ≡ some x) × Chain next (next x) xs

-- A link of an object outside the chain may change.
pub Chain-update :
    (next : ℕ → Option ℕ) (o : ℕ) (v p : Option ℕ) (xs : List ℕ)
    → mem o xs ≡ false
    → Chain next p xs
    → Chain (update next o v) p xs
unfolding Chain mem
Chain-update next o v p [] out c = c
Chain-update next o v p (x ∷ xs) out c =
    let same : update next o v x ≡ next x = ground (arith, out) in
    (c.0, rw same (Chain-update next o v (next x) xs (ground (arith, out)) c.1))

-- The object before `o` in `x ∷ xs`.
before : ℕ → List ℕ → ℕ → ℕ
before x [] o = x
before x (y ∷ ys) o = if y == o then x else before y ys o

mem-before : (x : ℕ) (xs : List ℕ) (o : ℕ) → mem (before x xs o) (x ∷ xs) ≡ true
unfolding mem before
mem-before x [] o = ground arith
mem-before x (y ∷ ys) o = ground (arith, mem-before y ys o)

-- Unlinking an object behind the first.
Chain-erase :
    (next : ℕ → Option ℕ) (x : ℕ) (xs : List ℕ) (o : ℕ)
    → distinct (x ∷ xs) ≡ true
    → mem o xs ≡ true
    → Chain next (next x) xs
    → let next' = update next (before x xs o) (next o) in Chain next' (next' x) (erase o xs)
unfolding Chain mem distinct erase before
Chain-erase next x [] o h inside c = absurd (ground (arith, inside))
Chain-erase next x (y ∷ ys) o h inside c = elim (Bool-cases (y == o)) [
  | inl e ↦
      let same : y ≡ o = (==_iff y o).0 e in
      let behind : Chain next (next o) ys = subst (λ a. Chain next (next a) ys) same c.1 in
      rw (e, update-same next x (next o))
        (Chain-update next x (next o) (next o) ys (ground (arith, h)) behind)
  | inr e ↦
      let apart : before y ys o ≢ x = ground (arith, h, mem-before y ys o) in
      rw (e, update-other next (before y ys o) (next o) x apart)
        (c.0, Chain-erase next y ys o (ground (arith, h)) (ground (arith, inside, e)) c.1)
]

-- The link that unlink stores to, and what it does there.
pub link_to : Link → List ℕ → ℕ → Link
link_to find [] o = find
link_to find (x ∷ xs) o = if x == o then find else after (before x xs o)

link_to-after : (x : ℕ) (xs : List ℕ) (o : ℕ) → link_to (after x) xs o ≡ after (before x xs o)
unfolding link_to before
link_to-after x [] o = refl
link_to-after x (y ∷ ys) o = ground arith

==_sym : (a b : ℕ) → (a == b) ≡ (b == a)
==_sym a b = ground arith

pub unlink_lem :
    (k : ℕ) (find : Link) (p : Option ℕ) (xs : List ℕ) (o : ℕ) (w : World)
    → length xs < k
    → mem o xs ≡ true
    → Chain w.next p xs
    → unlink k find p o w ≡ store_link (link_to find xs o) (w.next o) w
unfolding unlink Chain mem link_to
unlink_lem zero find p xs o w small inside c = absurd (omega arith)
unlink_lem (suc k) find p [] o w small inside c = absurd (ground (arith, inside))
unlink_lem (suc k) find p (x ∷ xs) o w small inside c = elim (Bool-cases (x == o)) [
  | inl e ↦ rw (c.0, ==_sym o x, e) (rw (sym ((==_iff x o).0 e)) refl)
  | inr e ↦
      rw (c.0, ==_sym o x, e)
        (unlink_lem k (after x) (w.next x) xs o w (omega arith) (ground (arith, inside, e)) c.1
          ∙ ap (λ l. store_link l (w.next o) w) (link_to-after x xs o))
]

-- The room's own chain after the store.
pub store_here :
    (w : World) (r o : ℕ) (xs : List ℕ)
    → mem o xs ≡ true
    → distinct xs ≡ true
    → Chain w.next (w.contents r) xs
    → let w' = store_link (link_to (head r) xs o) (w.next o) w in
      Chain w'.next (w'.contents r) (erase o xs)
unfolding Chain mem link_to erase
store_here w r o [] inside h c = absurd (ground (arith, inside))
store_here w r o (x ∷ xs) inside h c = elim (Bool-cases (x == o)) [
  | inl e ↦
      rw (e, update-same w.contents r (w.next o))
        (subst (λ a. Chain w.next (w.next a) xs) ((==_iff x o).0 e) c.1)
  | inr e ↦ rw e (c.0, Chain-erase w.next x xs o h (ground (arith, inside, e)) c.1)
]

-- Another room's chain after the store.
pub store_there :
    (w : World) (r q o : ℕ) (xs ys : List ℕ)
    → r ≢ q
    → ((a : ℕ) → mem a xs ≡ true → mem a ys ≡ false)
    → Chain w.next (w.contents q) ys
    → let w' = store_link (link_to (head r) xs o) (w.next o) w in Chain w'.next (w'.contents q) ys
unfolding link_to
store_there w r q o [] ys ne apart c = rw (update-other w.contents r (w.next o) q ne) c
store_there w r q o (x ∷ xs) ys ne apart c = elim (Bool-cases (x == o)) [
  | inl e ↦ rw (e, update-other w.contents r (w.next o) q ne) c
  | inr e ↦ rw e (
      Chain-update w.next (before x xs o) (w.next o) (w.contents q) ys
        (apart (before x xs o) (mem-before x xs o)) c)
]

-- unlink changes links only.
pub unlink_links :
    (k : ℕ) (find : Link) (p : Option ℕ) (o : ℕ) (w : World)
    → (c : ℕ → Option ℕ) × (n : ℕ → Option ℕ) × (unlink k find p o w
        ≡ record w { contents = c; next = n })
unfolding unlink
unlink_links zero find p o w = (w.contents, w.next, refl)
unlink_links (suc k) find none o w = (w.contents, w.next, refl)
unlink_links (suc k) (head r) (some p) o w = elim (Bool-cases (o == p)) [
  | inl e ↦ rw e (update w.contents r (w.next o), w.next, refl)
  | inr e ↦ rw e (unlink_links k (after p) (w.next p) o w)
]
unlink_links (suc k) (after q) (some p) o w = elim (Bool-cases (o == p)) [
  | inl e ↦ rw e (w.contents, update w.next q (w.next o), refl)
  | inr e ↦ rw e (unlink_links k (after p) (w.next p) o w)
]

pub remove_absent : (o : ℕ) (w : World) → w.loc o ≡ none → remove_object o w ≡ w
unfolding remove_object
remove_absent o w e = rw (e, remove_object) refl

-- The world after remove_object's loop, with the object marked.
abbrev pub unlinked : ℕ → ℕ → World → World
unfolding unlink
unlinked o r w =
    let w' = unlink walk (head r) (w.contents r) o w in record w' { loc = update w'.loc o none }

pub remove_present : (o r : ℕ) (w : World) → w.loc o ≡ some r → remove_object o w ≡ unlinked o r w
unfolding remove_object
remove_present o r w e = rw (e, remove_object) refl

update_self : (f : ℕ → Option ℕ) (i : ℕ) → update f i (f i) ≡ f
update_self f i =
    fun_ext
      λ j. elim (Bool-cases (i == j)) [ inl e ↦ rw e (ap f ((==_iff i j).0 e)) | inr e ↦ rw e refl ]

-- remove_object changes links, and the object's room.
pub remove_object_links :
    (o : ℕ) (w : World)
    → (c : ℕ → Option ℕ) × (n : ℕ → Option ℕ) × (remove_object o w
        ≡ record w { contents = c; next = n; loc = update w.loc o none })
unfolding remove_object
remove_object_links o w = elim (Option-cases (w.loc o)) [
  | inl e ↦
      let put : (ℕ → Option ℕ) → World = λ l. record w { loc = l } in
      (
        w.contents,
        w.next,
        remove_absent o w e
            ∙ ap put (sym (subst (λ v. update w.loc o v ≡ w.loc) e (update_self w.loc o))),
      )
  | inr (r, e) ↦
      let (c, n, h) = unlink_links walk (head r) (w.contents r) o w in
      let mark : World → World = λ v. record v { loc = update v.loc o none } in
      (c, n, remove_present o r w e ∙ ap mark h)
]
