-- ===== src/World/Find.antt =====
-- find_in_room of mp2/world.c on the list of the room's objects.
use ece_391_fall.Prelude.{
  ℕ, zero, suc, ◌<◌, ◌≡◌, refl, arith, Option, none, some, List, [], ◌∷◌, true, Bool-cases, inl,
  inr, if◌then◌else◌, length, ◌+◌, ◌++◌, ◌&&◌, leb, Option-cases, ==_iff, ◌==◌, subst, sym, ap, ◌∙◌,
  false,
}
use Prim.Native.String.{String}
use ece_391_fall.Strings.Buffers.{codes}
use ece_391_fall.World.{World, lower, same_text, named, find_from, find_in_room, walk}
use ece_391_fall.World.Objects.{mem}
use ece_391_fall.World.Objects.Chains.{Chain}
use ece_391_fall.World.Objects.Contents.{Holds, length_room}

-- The first object of the list with the name, in any case of letters.
unfoldable pub first_named : List ℕ → World → List ℕ → Option ℕ
first_named arg w [] = none
first_named arg w (o ∷ os) = if named w arg o then some o else first_named arg w os

find_from-first_named :
    (k : ℕ) (p : Option ℕ) (arg : List ℕ) (w : World) (os : List ℕ)
    → length os < k
    → Chain w.next p os
    → find_from k p arg w ≡ first_named arg w os
unfolding find_from first_named Chain
find_from-first_named zero p arg w os small c = absurd (omega arith)
find_from-first_named (suc k) p arg w [] small c = rw c refl
find_from-first_named (suc k) p arg w (o ∷ os) small c =
    rw (c.0, find_from-first_named k (w.next o) arg w os (omega arith) c.1) refl

-- Where the links stand for lists.
pub find_in_room-first_named :
    (r : ℕ) (arg : List ℕ) (w : World) (lists : ℕ → List ℕ)
    → Holds w lists
    → find_in_room r arg w ≡ first_named arg w (lists r)
unfolding find_in_room
find_in_room-first_named r arg w lists holds =
    find_from-first_named walk (w.contents r) arg w (lists r)
      (omega (arith, length_room w lists holds r)) (holds.chain r)

pub mem-first_named :
    (arg : List ℕ) (w : World) (os : List ℕ) (o : ℕ)
    → first_named arg w os ≡ some o
    → mem o os ≡ true
unfolding first_named mem
mem-first_named arg w [] o h = ground (arith, h)
mem-first_named arg w (p ∷ os) o h = elim (Bool-cases (named w arg p)) [
  | inl e ↦ ground (arith, e, h)
  | inr e ↦ ground (arith, e, h, mem-first_named arg w os o)
]

-- Each of the letters A to Z as the small letter, 32 codes above it.
abbrev pub small_letters : List ℕ → List ℕ
small_letters [] = []
small_letters (c ∷ cs) =
    let rest = small_letters cs in (if leb 65 c && leb c 90 then c + 32 else c) ∷ rest

-- The object has a name, and it and the text are the same once capital letters are small.
abbrev pub HasName : List ℕ → World → ℕ → Type 0
HasName arg w o =
    (name : String) × (w.object_name o ≡ some name)
    × (small_letters arg ≡ small_letters (codes name))

-- The object is in the list and has the name, and no object before it has it; or none of the list has it.
abbrev pub FirstWithName : List ℕ → World → List ℕ → Option ℕ → Type 0
FirstWithName arg w os none = (o : ℕ) → mem o os ≡ true → ¬ HasName arg w o
FirstWithName arg w os (some o) =
    (before : List ℕ) × (after : List ℕ) × (os ≡ before ++ (o ∷ after))
    × HasName arg w o
    × ((p : ℕ) → mem p before ≡ true → ¬ HasName arg w p)

abbrev tail_of : List ℕ → List ℕ
tail_of [] = []
tail_of (c ∷ cs) = cs

abbrev head_of : List ℕ → ℕ
head_of [] = 0
head_of (c ∷ cs) = c

same_text-to : (xs ys : List ℕ) → same_text xs ys ≡ true → small_letters xs ≡ small_letters ys
unfolding same_text
same_text-to [] [] h = refl
same_text-to [] (y ∷ ys) h = ground (arith, h)
same_text-to (x ∷ xs) [] h = ground (arith, h)
same_text-to (x ∷ xs) (y ∷ ys) h =
    let first : lower x ≡ lower y = ground (arith, h) in
    rw (first, same_text-to xs ys (ground (arith, h))) refl

same_text-from : (xs ys : List ℕ) → small_letters xs ≡ small_letters ys → same_text xs ys ≡ true
unfolding same_text
same_text-from [] [] h = refl
same_text-from [] (y ∷ ys) h = absurd (omega (arith, ap (λ (l : List ℕ). length l) h))
same_text-from (x ∷ xs) [] h = absurd (omega (arith, ap (λ (l : List ℕ). length l) h))
same_text-from (x ∷ xs) (y ∷ ys) h =
    rw ((==_iff (lower x) (lower y)).1 (ap head_of h), same_text-from xs ys (ap tail_of h)) refl

named-none : (arg : List ℕ) (w : World) (o : ℕ) → w.object_name o ≡ none → named w arg o ≡ false
unfolding named
named-none arg w o e = rw (e, named) refl

named-some :
    (arg : List ℕ) (w : World) (o : ℕ) (name : String)
    → w.object_name o ≡ some name
    → named w arg o ≡ same_text arg (codes name)
unfolding named
named-some arg w o name e = rw (e, named) refl

named-HasName : (arg : List ℕ) (w : World) (o : ℕ) → named w arg o ≡ true → HasName arg w o
named-HasName arg w o h = elim (Option-cases (w.object_name o)) [
  | inl e ↦ absurd (ground (arith, h, named-none arg w o e))
  | inr (name, e) ↦ (name, e, same_text-to arg (codes name) (sym (named-some arg w o name e) ∙ h))
]

HasName-named : (arg : List ℕ) (w : World) (o : ℕ) → HasName arg w o → named w arg o ≡ true
HasName-named arg w o (name, e, same) =
    named-some arg w o name e ∙ same_text-from arg (codes name) same

unnamed : (arg : List ℕ) (w : World) (o : ℕ) → named w arg o ≡ false → ¬ HasName arg w o
unnamed arg w o h has = ground (arith, h, HasName-named arg w o has)

-- One more object that has not the name.
FirstWithName-step :
    (arg : List ℕ) (w : World) (q : ℕ) (os : List ℕ) (r : Option ℕ)
    → ¬ HasName arg w q
    → FirstWithName arg w os r
    → FirstWithName arg w (q ∷ os) r
unfolding mem
FirstWithName-step arg w q os none other f = λ o h. elim (Bool-cases (q == o)) [
  | inl e ↦ subst (λ x. ¬ HasName arg w x) ((==_iff q o).0 e) other
  | inr e ↦ f o (ground (arith, e, h))
]
FirstWithName-step arg w q os (some o) other (before, after, e, has, first) = (
  q ∷ before,
  after,
  ap (λ (l : List ℕ). q ∷ l) e,
  has,
  λ p h. elim (Bool-cases (q == p)) [
    | inl g ↦ subst (λ x. ¬ HasName arg w x) ((==_iff q p).0 g) other
    | inr g ↦ first p (ground (arith, g, h))
  ],
)

first_named-FirstWithName :
    (arg : List ℕ) (w : World) (os : List ℕ) → FirstWithName arg w os (first_named arg w os)
unfolding first_named mem
first_named-FirstWithName arg w [] = λ o h. absurd (ground (arith, h))
first_named-FirstWithName arg w (q ∷ os) = elim (Bool-cases (named w arg q)) [
  | inl e ↦
      rw (e, first_named) ([], os, refl, named-HasName arg w q e, λ p h. absurd (ground (arith, h)))
  | inr e ↦
      rw (e, first_named)
        (FirstWithName-step arg w q os (first_named arg w os) (unnamed arg w q e)
          (first_named-FirstWithName arg w os))
]

-- Where the links stand for lists, find_in_room returns the first object of the room's list that has
-- the name, and NULL when no object there has it: the text and the object's name are compared with each of
-- the letters A to Z as the small letter 32 codes above it, and all other characters as they are.
pub find_in_room-FirstWithName :
    (r : ℕ) (arg : List ℕ) (w : World) (lists : ℕ → List ℕ)
    → Holds w lists
    → FirstWithName arg w (lists r) (find_in_room r arg w)
find_in_room-FirstWithName r arg w lists holds =
    subst (FirstWithName arg w (lists r)) (sym (find_in_room-first_named r arg w lists holds))
      (first_named-FirstWithName arg w (lists r))
