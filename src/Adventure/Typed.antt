-- ===== src/Adventure/Typed.antt =====
-- The commands of mp2/adventure.c on a fair world.
use ece_391_fall.Prelude.{
  ℕ, ◌⊎◌, ◌≡◌, refl, arith, Option, none, some, Option-cases, List, [], ◌∷◌, Bool, true, false,
  Bool-cases, inl, inr,
}
use ece_391_fall.World.{
  Outcome, Action, allow_edit, discard_text, redraw_room, change_room, show_status,
}
use ece_391_fall.World.Devices.{
  Deed, move_left, enter_door, move_right, buy, charge, do_it, drink, drop, fix, flash, get, go,
  install, show_inventory, sigh, use_it, wear,
}
use ece_391_fall.World.Progress.{IsFair}
use ece_391_fall.World.Progress.Outcomes.{Safe, Won}
use ece_391_fall.World.Progress.Ways.{
  try_to_move_left-Safe, try_to_enter-Safe, try_to_move_right-Safe,
}
use ece_391_fall.World.Progress.Games.{perform-Ends}
use ece_391_fall.Input.{
  Cmd, cmd_none, cmd_up, cmd_right, cmd_down, cmd_left, cmd_move_left, cmd_enter, cmd_move_right,
  cmd_typed, cmd_quit,
}
use ece_391_fall.Adventure.{
  Game, strip_spaces, verb_length, behind, find_command, cmd_list, redraw, move_photo_down,
  move_photo_left, move_photo_right, move_photo_up, adjust_speeds, handle_result, handle_typing,
  handle_cmd,
}

-- The player is in a fair world, or has won: what Safe says, of the game.
unfoldable pub Playing : Game → Type 0
Playing g = ((r : ℕ) → g.where_at ≡ some r → IsFair r g.world) × (g.where_at ≡ none → Won g.world)

adjust_speeds-Playing : (deed : Deed) (g : Game) → Playing g → Playing (adjust_speeds deed g)
unfolding adjust_speeds Playing
adjust_speeds-Playing move_left g h = h
adjust_speeds-Playing enter_door g h = h
adjust_speeds-Playing move_right g h = h
adjust_speeds-Playing buy g h = h
adjust_speeds-Playing charge g h = h
adjust_speeds-Playing do_it g h = h
adjust_speeds-Playing drink g h = h
adjust_speeds-Playing drop g h = h
adjust_speeds-Playing fix g h = h
adjust_speeds-Playing flash g h = h
adjust_speeds-Playing get g h = h
adjust_speeds-Playing go g h = h
adjust_speeds-Playing install g h = h
adjust_speeds-Playing show_inventory g h = h
adjust_speeds-Playing sigh g h = h
adjust_speeds-Playing use_it g h = h
adjust_speeds-Playing wear g h = h

handle_result-Playing :
    (action : Action) (g : Game) → Playing g → Playing (handle_result action g).1
unfolding handle_result Playing redraw
handle_result-Playing change_room g h = h
handle_result-Playing allow_edit g h = h
handle_result-Playing discard_text g h = h
handle_result-Playing redraw_room g h = h

outcome-Playing :
    (out : Outcome) (g : Game)
    → Safe out
    → Playing (record g { where_at = out.place; world = out.world })
unfolding Safe Playing
outcome-Playing out g safe = safe

List-cases : (xs : List ℕ) → (xs ≡ []) ⊎ ((c : ℕ) × (cs : List ℕ) × (xs ≡ c ∷ cs))
List-cases [] = inl refl
List-cases (c ∷ cs) = inr (c, cs, refl)

-- The typed text leads to a game that goes on, or is won.
abbrev Types : Option (Bool × Game) → Type 0
Types p = (entered : Bool) × (g : Game) × (p ≡ some (entered, g)) × Playing g

handle_typing-Types :
    (r : ℕ) (g : Game)
    → g.where_at ≡ some r
    → Playing g
    → IsFair r g.world
    → Types (handle_typing r g)
unfolding handle_typing Playing
handle_typing-Types r g at playing fair = elim (List-cases (strip_spaces g.input.typing)) [
  | inl e ↦ rw (e, handle_typing) (false, g, refl, playing)
  | inr (c, cs, e) ↦ elim (Option-cases (find_command cmd_list (c ∷ cs) (verb_length (c ∷ cs)))) [
    | inl f ↦ rw (e, f, handle_typing) (false, _, refl, babbling)
    | inr (deed, f) ↦
        let arg = strip_spaces (behind (verb_length (c ∷ cs)) (c ∷ cs)) in
        let (out, p, safe) = perform-Ends deed r arg g.world fair in
        let g1 : Game = record g { where_at = out.place; world = out.world } in
        rw (e, f, p, handle_typing)
          (
            (handle_result out.action (adjust_speeds deed g1)).0,
            (handle_result out.action (adjust_speeds deed g1)).1,
            refl,
            handle_result-Playing out.action (adjust_speeds deed g1)
                (adjust_speeds-Playing deed g1 (outcome-Playing out g safe)),
          )
  ]
]
  where
    babbling : Playing (record g { world = show_status "What are you babbling about?" g.world })
    babbling = (λ s e. playing.0 s e, λ e. absurd (ground (arith, at, e)))

-- For a player in a room of a fair world, whatever the next command, typed or not: no NULL room is
-- used, and afterwards the player is in a room of a fair world again, or the game is won with all
-- that it takes.
pub handle_cmd-Playing :
    (cmd : Cmd) (r : ℕ) (g : Game)
    → g.where_at ≡ some r
    → Playing g
    → (g' : Game) × (handle_cmd cmd r g ≡ some g') × Playing g'
unfolding handle_cmd Playing move_photo_down move_photo_left move_photo_right move_photo_up Safe
handle_cmd-Playing cmd_none r g at h = (g, refl, h)
handle_cmd-Playing cmd_up r g at h = (_, refl, h)
handle_cmd-Playing cmd_right r g at h = (_, refl, h)
handle_cmd-Playing cmd_down r g at h = (_, refl, h)
handle_cmd-Playing cmd_left r g at h = (_, refl, h)
handle_cmd-Playing cmd_move_left r g at h = (_, refl, try_to_move_left-Safe r g.world (h.0 r at))
handle_cmd-Playing cmd_enter r g at h = (_, refl, try_to_enter-Safe r g.world (h.0 r at))
handle_cmd-Playing cmd_move_right r g at h = (_, refl, try_to_move_right-Safe r g.world (h.0 r at))
handle_cmd-Playing cmd_typed r g at h =
    let (entered, g', e, playing) = handle_typing-Types r g at h (h.0 r at) in
    rw (e, handle_cmd)
      (elim (Bool-cases entered) [
        | inl f ↦ rw f (record g' { enter_room = true }, refl, playing)
        | inr f ↦ rw f (g', refl, playing)
      ])
handle_cmd-Playing cmd_quit r g at h = (g, refl, h)
