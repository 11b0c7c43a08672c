-- ===== src/Console/Terminals.antt =====
-- Printing leaves the line that is being typed alone.
use ece_391_fall.Prelude.{
  ℕ, ◌+◌, ◌-◌, ◌≡◌, refl, ◌∙◌, arith, leb, ◌==◌, ◌&&◌, ◌||◌, Bool-cases, ==_iff, if◌then◌else◌, inl,
  inr, subst,
}
use ece_391_fall.Console.{
  Console, Terminal, memory_switch, update_cursor, wrap_row, putc_backspace, putc_newline,
  putc_char, putc, leave, move_cursor, clear, refresh_cursor, put_cell,
}
use ece_391_fall.Console.Mapping.{
  begin, target, begin-terminal, begin-ids, putc_backspace-home, putc_backspace-Leaves,
  putc_newline-Leaves, putc_char-Leaves,
}

-- The buffer, the index and the enter flag of a terminal are those of another state of it.
abbrev pub SameLine : Terminal → Terminal → Type 0
SameLine t t' =
    (t'.keyboard_buffer ≡ t.keyboard_buffer)
    × (t'.index ≡ t.index)
    × (t'.enter_pressed ≡ t.enter_pressed)

-- So for every terminal.
abbrev pub SameLines : Console → Console → Type 0
SameLines s s' = (t : ℕ) → SameLine (s.terminal t) (s'.terminal t)

move_cursor-SameLines : (tid x y : ℕ) (s : Console) → SameLines s (move_cursor tid x y s)
move_cursor-SameLines tid x y s t = elim (Bool-cases (tid == t)) [
  | inl e ↦ rw e (
      subst (λ u. SameLine (s.terminal u) (s.terminal tid)) ((==_iff tid t).0 e) (refl, refl, refl))
  | inr e ↦ rw e (refl, refl, refl)
]

SameLines-trans : (s s' s'' : Console) → SameLines s s' → SameLines s' s'' → SameLines s s''
SameLines-trans s s' s'' h h' t = ((h' t).0 ∙ (h t).0, (h' t).1 ∙ (h t).1, (h' t).2 ∙ (h t).2)

leave-SameLines : (user : ℕ) (s s' : Console) → SameLines s s' → SameLines s (leave user s')
unfolding memory_switch
leave-SameLines user s s' h = elim (Bool-cases (user == 1)) [ inl e ↦ rw e h | inr e ↦ rw e h ]

wrap_row-SameLines : (tid x y : ℕ) (s : Console) → SameLines s (wrap_row tid x y s)
unfolding wrap_row
wrap_row-SameLines tid x y s = elim (Bool-cases (leb 25 y)) [
  | inl e ↦ rw (e, wrap_row) (move_cursor-SameLines tid x _ s)
  | inr e ↦ rw (e, wrap_row) (move_cursor-SameLines tid x y s)
]

putc_newline-SameLines : (tid user : ℕ) (s : Console) → SameLines s (putc_newline tid user s)
unfolding putc_newline update_cursor
putc_newline-SameLines tid user s = leave-SameLines user s _ (wrap_row-SameLines tid 0 _ s)

putc_char-SameLines : (tid c user : ℕ) (s : Console) → SameLines s (putc_char tid c user s)
unfolding putc_char update_cursor
putc_char-SameLines tid c user s = elim (Bool-cases (leb 80 (s.terminal tid).cursor_x)) [
  | inl e ↦
      let s1 = refresh_cursor (wrap_row tid 0 ((s.terminal tid).cursor_y + 1) s) in
      let s2 = put_cell tid c s1 in
      let x' : ℕ = (s1.terminal tid).cursor_x + 1 in
      let y' : ℕ = (s1.terminal tid).cursor_y in
      rw (e, putc_char)
        (leave-SameLines user s _ (
          SameLines-trans s s2 (move_cursor tid x' y' s2) (wrap_row-SameLines tid 0 _ s)
            (move_cursor-SameLines tid x' y' s2)))
  | inr e ↦
      rw (e, putc_char)
        (leave-SameLines user s _ (move_cursor-SameLines tid _ _ (put_cell tid c s)))
]

putc_backspace-SameLines : (tid user : ℕ) (s : Console) → SameLines s (putc_backspace tid user s)
unfolding putc_backspace update_cursor
putc_backspace-SameLines tid user s =
    let t = s.terminal tid in
    elim (Bool-cases (t.cursor_x == 0 && t.cursor_y == 0)) [
      | inl e ↦ rw (e, putc_backspace) (λ t. (refl, refl, refl))
      | inr e ↦
          rw (e, putc_backspace)
            (elim (Bool-cases ((if t.cursor_x == 0 then 80 else t.cursor_x) - 1 == 255)) [
              | inl f ↦ rw f (leave-SameLines user s _ (move_cursor-SameLines tid _ _ s))
              | inr f ↦ rw f (leave-SameLines user s _ (move_cursor-SameLines tid _ _ s))
            ])
    ]

begin-SameLines : (user : ℕ) (s : Console) → SameLines s (begin user s)
begin-SameLines user s t = rw (begin-terminal user s) (refl, refl, refl)

-- putc changes no terminal's keyboard buffer, index or enter flag.
pub putc-SameLines : (c user : ℕ) (s : Console) → SameLines s (putc c user s)
unfolding putc
putc-SameLines c user s = elim (Bool-cases (c == 8)) [
  | inl e ↦
      rw (e, putc)
        (after (putc_backspace (target user s) user (begin user s))
          (putc_backspace-SameLines (target user s) user (begin user s)))
  | inr e ↦
      rw (e, putc)
        (elim (Bool-cases (c == b'\n' || c == b'\r')) [
          | inl f ↦ rw f (
              after (putc_newline (target user s) user (begin user s))
                (putc_newline-SameLines (target user s) user (begin user s)))
          | inr f ↦ rw f (
              after (putc_char (target user s) c user (begin user s))
                (putc_char-SameLines (target user s) c user (begin user s)))
        ])
]
  where
    after : (s' : Console) → SameLines (begin user s) s' → SameLines s s'
    after s' = SameLines-trans s (begin user s) s' (begin-SameLines user s)

-- Nor does clear.
pub clear-SameLines : (s : Console) → SameLines s (clear s)
unfolding clear update_cursor
clear-SameLines s = move_cursor-SameLines s.cur_terminal 0 0 s

putc_backspace-ids :
    (tid user : ℕ) (s : Console)
    → ((putc_backspace tid user s).cur_terminal ≡ s.cur_terminal)
      × ((putc_backspace tid user s).run_terminal ≡ s.run_terminal)
putc_backspace-ids tid user s =
    elim (Bool-cases ((s.terminal tid).cursor_x == 0 && (s.terminal tid).cursor_y == 0)) [
      | inl e ↦ rw (putc_backspace-home tid user s (ground arith) (ground arith)) (refl, refl)
      | inr e ↦ let (_, cur, run) = putc_backspace-Leaves tid user s e in (cur, run)
    ]

-- putc leaves the terminals' numbers alone.
pub putc-ids :
    (c user : ℕ) (s : Console)
    → ((putc c user s).cur_terminal ≡ s.cur_terminal)
      × ((putc c user s).run_terminal ≡ s.run_terminal)
unfolding putc
putc-ids c user s =
    let b = begin user s in
    let tid = target user s in
    let (bc, br) = begin-ids user s in
    elim (Bool-cases (c == 8)) [
      | inl e ↦ let (cur, run) = putc_backspace-ids tid user b in rw (e, putc) (cur ∙ bc, run ∙ br)
      | inr e ↦
          rw (e, putc)
            (elim (Bool-cases (c == b'\n' || c == b'\r')) [
              | inl f ↦
                  let (_, cur, run) = putc_newline-Leaves tid user b in rw f (cur ∙ bc, run ∙ br)
              | inr f ↦
                  let (_, cur, run) = putc_char-Leaves tid c user b in rw f (cur ∙ bc, run ∙ br)
            ])
    ]

pub clear-ids :
    (s : Console)
    → ((clear s).cur_terminal ≡ s.cur_terminal) × ((clear s).run_terminal ≡ s.run_terminal)
unfolding clear update_cursor
clear-ids s = (refl, refl)
