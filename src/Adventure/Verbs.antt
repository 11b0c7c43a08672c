-- ===== src/Adventure/Verbs.antt =====
-- The verbs that mp2/adventure.c takes.
use ece_391_fall.Prelude.{
  ℕ, zero, suc, ◌≤◌, ◌≡◌, ◌≢◌, ◌⊎◌, inl, inr, refl, sym, ap, ◌∙◌, subst, arith, some, List, [], ◌∷◌,
  Bool, true, false, not, ◌&&◌, ◌||◌, ◌==◌, Bool-cases, if◌then◌else◌,
}
use ece_391_fall.Strings.Buffers.{codes}
use ece_391_fall.World.{lower}
use ece_391_fall.World.Devices.{
  Deed, move_left, enter_door, move_right, buy, charge, do_it, drink, drop, fix, flash, get, go,
  install, show_inventory, sigh, use_it, wear,
}
use ece_391_fall.Adventure.{TypedCmd, cmd_list, same_prefix, matches, find_command, verb_length}

-- Two names have the same first k letters.
agree : ℕ → List ℕ → List ℕ → Bool
agree zero cs ds = true
agree (suc k) [] ds = false
agree (suc k) (c ∷ cs) [] = false
agree (suc k) (c ∷ cs) (d ∷ ds) = lower c == lower d && agree k cs ds

agree_less : (k j : ℕ) (cs ds : List ℕ) → j ≤ k → agree k cs ds ≡ true → agree j cs ds ≡ true
unfolding agree
agree_less k zero cs ds le h = refl
agree_less zero (suc j) cs ds le h = absurd (omega (arith, le))
agree_less (suc k) (suc j) [] ds le h = absurd (ground (arith, h))
agree_less (suc k) (suc j) (c ∷ cs) [] le h = absurd (ground (arith, h))
agree_less (suc k) (suc j) (c ∷ cs) (d ∷ ds) le h =
    ground (arith, h, agree_less k j cs ds (omega (arith, le)))

-- Two names that take the same verb agree on its letters.
agree-same_prefix :
    (cmd cs ds : List ℕ)
    → same_prefix cs cmd (verb_length cmd) ≡ true
    → same_prefix ds cmd (verb_length cmd) ≡ true
    → agree (verb_length cmd) cs ds ≡ true
unfolding agree same_prefix verb_length
agree-same_prefix [] cs ds h h' = refl
agree-same_prefix (a ∷ rest) [] ds h h' = ground (arith, h)
agree-same_prefix (a ∷ rest) (c ∷ cs) [] h h' = ground (arith, h')
agree-same_prefix (a ∷ rest) (c ∷ cs) (d ∷ ds) h h' =
    ground (arith, h, h', agree-same_prefix rest cs ds)

deed_number : Deed → ℕ
deed_number move_left = 0
deed_number enter_door = 1
deed_number move_right = 2
deed_number buy = 3
deed_number charge = 4
deed_number do_it = 5
deed_number drink = 6
deed_number drop = 7
deed_number fix = 8
deed_number flash = 9
deed_number get = 10
deed_number go = 11
deed_number install = 12
deed_number show_inventory = 13
deed_number sigh = 14
deed_number use_it = 15
deed_number wear = 16

-- No verb is long enough for both entries, unless they are for the same command.
apart : TypedCmd → TypedCmd → Bool
apart t u =
    deed_number t.deed == deed_number u.deed
    || not (agree t.min_len (codes t.name) (codes u.name))
    || not (agree u.min_len (codes t.name) (codes u.name))

apart_all : TypedCmd → List TypedCmd → Bool
apart_all t [] = true
apart_all t (u ∷ us) = apart t u && apart_all t us

all_apart : List TypedCmd → Bool
all_apart [] = true
all_apart (t ∷ ts) = apart_all t ts && all_apart ts

verb_table : all_apart cmd_list ≡ true
unfolding all_apart apart_all apart deed_number agree
verb_table = refl

-- The entry stands in the list.
unfoldable pub Entry : TypedCmd → List TypedCmd → Type 0
Entry t [] = t ≢ t
Entry t (u ∷ us) = (t ≡ u) ⊎ Entry t us

deed_of : ℕ → Deed
deed_of n =
    if n == 0
    then move_left
    else if n == 1
    then enter_door
    else if n == 2
    then move_right
    else if n == 3
    then buy
    else if n == 4
    then charge
    else if n == 5
    then do_it
    else if n == 6
    then drink
    else if n == 7
    then drop
    else if n == 8
    then fix
    else if n == 9
    then flash
    else if n == 10
    then get
    else if n == 11
    then go
    else if n == 12
    then install
    else if n == 13
    then show_inventory
    else if n == 14
    then sigh
    else if n == 15
    then use_it
    else wear

deed_of-deed_number : (d : Deed) → deed_of (deed_number d) ≡ d
unfolding deed_of deed_number
deed_of-deed_number move_left = refl
deed_of-deed_number enter_door = refl
deed_of-deed_number move_right = refl
deed_of-deed_number buy = refl
deed_of-deed_number charge = refl
deed_of-deed_number do_it = refl
deed_of-deed_number drink = refl
deed_of-deed_number drop = refl
deed_of-deed_number fix = refl
deed_of-deed_number flash = refl
deed_of-deed_number get = refl
deed_of-deed_number go = refl
deed_of-deed_number install = refl
deed_of-deed_number show_inventory = refl
deed_of-deed_number sigh = refl
deed_of-deed_number use_it = refl
deed_of-deed_number wear = refl

-- Two entries that take a verb are for the same command.
apart-matches :
    (t u : TypedCmd) (cmd : List ℕ)
    → apart t u ≡ true
    → matches t cmd (verb_length cmd) ≡ true
    → matches u cmd (verb_length cmd) ≡ true
    → t.deed ≡ u.deed
unfolding apart matches
apart-matches t u cmd h ht hu =
    let k = verb_length cmd in
    let both : agree k (codes t.name) (codes u.name) ≡ true =
      agree-same_prefix cmd (codes t.name) (codes u.name) (ground (arith, ht))
        (ground (arith, hu)) in
    let one = agree_less k t.min_len (codes t.name) (codes u.name) (ground (arith, ht)) both in
    let two = agree_less k u.min_len (codes t.name) (codes u.name) (ground (arith, hu)) both in
    let same : deed_number t.deed ≡ deed_number u.deed = ground (arith, h, one, two) in
    sym (deed_of-deed_number t.deed) ∙ ap deed_of same ∙ deed_of-deed_number u.deed

apart_all-Entry :
    (t u : TypedCmd) (us : List TypedCmd) → apart_all t us ≡ true → Entry u us → apart t u ≡ true
unfolding apart_all Entry
apart_all-Entry t u [] h e = absurd (e refl)
apart_all-Entry t u (v ∷ vs) h (inl e) = rw e (ground (arith, h))
apart_all-Entry t u (v ∷ vs) h (inr e) = apart_all-Entry t u vs (ground (arith, h)) e

find_command_from :
    (ts : List TypedCmd) (t : TypedCmd) (cmd : List ℕ)
    → all_apart ts ≡ true
    → Entry t ts
    → matches t cmd (verb_length cmd) ≡ true
    → find_command ts cmd (verb_length cmd) ≡ some t.deed
unfolding all_apart Entry find_command
find_command_from [] t cmd h e m = absurd (e refl)
find_command_from (u ∷ us) t cmd h (inl e) m =
    let here : matches u cmd (verb_length cmd) ≡ true =
      subst (λ v. matches v cmd (verb_length cmd) ≡ true) e m in
    rw here (ap (λ (v : TypedCmd). some v.deed) (sym e))
find_command_from (u ∷ us) t cmd h (inr e) m = elim (Bool-cases (matches u cmd (verb_length cmd))) [
  | inl f ↦
      rw f (ap some (apart-matches u t cmd (apart_all-Entry u t us (ground (arith, h)) e) f m))
  | inr f ↦ rw f (find_command_from us t cmd (ground (arith, h)) e m)
]

-- The order of the list does not matter: whichever entry takes the typed verb, its command is the one
-- that is found.
pub find_command_any :
    (t : TypedCmd) (cmd : List ℕ)
    → Entry t cmd_list
    → matches t cmd (verb_length cmd) ≡ true
    → find_command cmd_list cmd (verb_length cmd) ≡ some t.deed
find_command_any t cmd e m = find_command_from cmd_list t cmd verb_table e m
