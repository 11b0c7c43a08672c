-- ===== src/Console/Screen.antt =====
-- The cursor stays on the screen, and printing touches one screen only.
use ece_391_fall.Prelude.{
  ℕ, ◌+◌, ◌-◌, ◌*◌, ◌/◌, ◌≤◌, ◌<◌, ◌≡◌, ◌≢◌, inl, inr, refl, subst, ◌∙◌, arith, leb, ◌==◌, ◌&&◌,
  ◌||◌, false, Bool-cases, ==_iff, leb→le, if◌then◌else◌,
}
use ece_391_fall.Console.{
  Console, Terminal, screen_frame, memory_switch, update_cursor, wrap_row, putc_backspace,
  putc_newline, putc_char, putc, leave, refresh_cursor, put_cell, move_cursor, scroll,
}
use ece_391_fall.Console.Scroll.{video_mem-frame, scroll_lem}
use ece_391_fall.Console.Mapping.{
  IsMapped, TerminalIds, video_frame, begin, target, begin-terminal, memory_switch_lem,
}

-- The cursor of a terminal; column 80 means that the next character starts a row.
abbrev pub OnScreen : Terminal → Type 0
OnScreen t = (t.cursor_x ≤ 80) × (t.cursor_y < 25)

-- What a printing step may do in a screen: it keeps the bytes outside frame `f`, and the
-- terminals' cursors on the screen.
pub record Prints (f : ℕ) (s s' : Console) : Type 0 where
  pub outside : (a : ℕ) → a / 4096 ≢ f → s'.vmem a ≡ s.vmem a
  pub cursors : ((t : ℕ) → OnScreen (s.terminal t)) → (t : ℕ) → OnScreen (s'.terminal t)

scroll-outside : (s : Console) (a : ℕ) → a / 4096 ≢ video_frame s → (scroll s).vmem a ≡ s.vmem a
scroll-outside s a h = scroll_lem s.paging.page_table (video_frame s) s.vmem a refl ∙ ground arith

wrap_row-Prints :
    (tid x y : ℕ) (s : Console) → x ≤ 80 → y ≤ 25 → Prints (video_frame s) s (wrap_row tid x y s)
unfolding wrap_row
wrap_row-Prints tid x y s hx hy = elim (Bool-cases (leb 25 y)) [
  | inl e ↦
      rw (e, wrap_row)
        (record {
          outside = scroll-outside s;
          cursors = λ h t. ground (arith, h t, h tid, leb→le 25 y e);
        })
  | inr e ↦
      rw (e, wrap_row)
        (record { outside = λ a h. refl; cursors = λ h t. ground (arith, h t, h tid) })
]

-- A cell on the screen lies in its frame.
put_cell-outside :
    (tid c a : ℕ) (s : Console)
    → OnScreen (s.terminal tid)
    → a / 4096 ≢ video_frame s
    → (put_cell tid c s).vmem a ≡ s.vmem a
put_cell-outside tid c a s on h =
    let off : ℕ = 2 * (80 * (s.terminal tid).cursor_y + (s.terminal tid).cursor_x) in
    ground (
      arith,
      video_mem-frame s.paging.page_table (video_frame s) off refl (omega arith),
      video_mem-frame s.paging.page_table (video_frame s) (off + 1) refl (omega arith),
    )

Prints-leave : (f user : ℕ) (s s' : Console) → Prints f s s' → Prints f s (leave user s')
unfolding memory_switch
Prints-leave f user s s' p = elim (Bool-cases (user == 1)) [
  | inl e ↦ rw e (record { outside = p.outside; cursors = p.cursors })
  | inr e ↦ rw e p
]

putc_newline-Prints :
    (tid user : ℕ) (s : Console)
    → OnScreen (s.terminal tid)
    → Prints (video_frame s) s (putc_newline tid user s)
unfolding putc_newline update_cursor
putc_newline-Prints tid user s on =
    let w = wrap_row-Prints tid 0 ((s.terminal tid).cursor_y + 1) s (omega arith) (omega arith) in
    Prints-leave (video_frame s) user s _ (record { outside = w.outside; cursors = w.cursors })

-- One step after another.
Prints-trans : (f : ℕ) (s t u : Console) → Prints f s t → Prints f t u → Prints f s u
Prints-trans f s t u p q = record {
  outside = λ a h. q.outside a h ∙ p.outside a h;
  cursors = λ h. q.cursors (p.cursors h);
}

put_cell-Prints :
    (tid c : ℕ) (s : Console)
    → OnScreen (s.terminal tid)
    → Prints (video_frame s) s (put_cell tid c s)
put_cell-Prints tid c s on = record {
  outside = λ a h. put_cell-outside tid c a s on h;
  cursors = λ h t. h t;
}

move_cursor-Prints :
    (f tid x y : ℕ) (s : Console) → x ≤ 80 → y < 25 → Prints f s (move_cursor tid x y s)
move_cursor-Prints f tid x y s hx hy = record {
  outside = λ a h. refl;
  cursors = λ h t. ground (arith, h t);
}

-- The step of the backspace branch: the cursor goes back, and a blank is put there.
back-Prints :
    (tid x y : ℕ) (s : Console)
    → x ≤ 80
    → y < 25
    → Prints (video_frame s) s (put_cell tid b' ' (move_cursor tid x y s))
back-Prints tid x y s hx hy =
    Prints-trans (video_frame s) s (move_cursor tid x y s) _
      (move_cursor-Prints (video_frame s) tid x y s hx hy)
      (put_cell-Prints tid b' ' (move_cursor tid x y s) (ground arith))

-- The cursor moves before the first column of no row but the first.
back_column :
    (x y : ℕ)
    → x ≤ 80
    → y < 25
    → (x == 0 && y == 0) ≡ false
    → (((if x == 0 then 80 else x) - 1 == 255) ≡ false)
      × ((if x == 0 then 80 else x) - 1 ≤ 80)
      × ((if x == 0 then y - 1 else y) < 25)
back_column x y hx hy e = (ground arith, ground arith, ground arith)

putc_backspace-Prints :
    (tid user : ℕ) (s : Console)
    → OnScreen (s.terminal tid)
    → Prints (video_frame s) s (putc_backspace tid user s)
unfolding putc_backspace update_cursor
putc_backspace-Prints tid user s on =
    let t = s.terminal tid in
    elim (Bool-cases (t.cursor_x == 0 && t.cursor_y == 0)) [
      | inl e ↦ rw (e, putc_backspace) (record { outside = λ a h. refl; cursors = λ h. h })
      | inr e ↦
          let (near, hx, hy) = back_column t.cursor_x t.cursor_y on.0 on.1 e in
          let q = back-Prints tid _ _ s hx hy in
          rw (e, near, putc_backspace)
            (Prints-leave (video_frame s) user s _
              (record { outside = q.outside; cursors = q.cursors }))
    ]

-- A character put at the cursor, which then moves on.
cell-Prints :
    (tid c : ℕ) (s : Console)
    → (s.terminal tid).cursor_x < 80
    → (s.terminal tid).cursor_y < 25
    → let t = s.terminal tid in
      Prints (video_frame s) s (move_cursor tid (t.cursor_x + 1) t.cursor_y (put_cell tid c s))
cell-Prints tid c s hx hy =
    Prints-trans (video_frame s) s (put_cell tid c s) _ (put_cell-Prints tid c s (omega arith))
      (move_cursor-Prints (video_frame s) tid _ _ (put_cell tid c s) (omega arith) hy)

wrap_row-cursor :
    (tid x y : ℕ) (s : Console)
    → y ≤ 25
    → (((wrap_row tid x y s).terminal tid).cursor_x ≡ x)
      × (((wrap_row tid x y s).terminal tid).cursor_y < 25)
      × (video_frame (wrap_row tid x y s) ≡ video_frame s)
unfolding wrap_row
wrap_row-cursor tid x y s h = (ground arith, ground arith, ground arith)

putc_char-Prints :
    (tid c user : ℕ) (s : Console)
    → OnScreen (s.terminal tid)
    → Prints (video_frame s) s (putc_char tid c user s)
unfolding putc_char update_cursor
putc_char-Prints tid c user s on =
    let t = s.terminal tid in
    elim (Bool-cases (leb 80 t.cursor_x)) [
      | inl e ↦
          let s1 = refresh_cursor (wrap_row tid 0 (t.cursor_y + 1) s) in
          let at = wrap_row-cursor tid 0 (t.cursor_y + 1) s (omega (arith, on.1)) in
          let w = wrap_row-Prints tid 0 (t.cursor_y + 1) s (omega arith) (omega (arith, on.1)) in
          let q =
            subst (λ f. Prints f s1 (next s1)) at.2
              (cell-Prints tid c s1 (omega (arith, at.0)) at.1) in
          rw (e, putc_char)
            (Prints-leave (video_frame s) user s _ (record {
              outside = λ a h. q.outside a h ∙ w.outside a h;
              cursors = λ h. q.cursors (w.cursors h);
            }))
      | inr e ↦
          let q = cell-Prints tid c s (ground arith) on.1 in
          rw (e, putc_char)
            (Prints-leave (video_frame s) user s _
              (record { outside = q.outside; cursors = q.cursors }))
    ]
  where
    next : Console → Console
    next s' =
        let t = s'.terminal tid in move_cursor tid (t.cursor_x + 1) t.cursor_y (put_cell tid c s')

-- The frame of the screen that putc prints on: the running terminal's for a program's output, the
-- displayed terminal's for an echo.
abbrev pub putc_frame : ℕ → Console → ℕ
putc_frame user s = screen_frame s.cur_terminal (target user s)

begin-frame :
    (user : ℕ) (s : Console)
    → user < 2
    → TerminalIds s
    → IsMapped s
    → video_frame (begin user s) ≡ putc_frame user s
begin-frame user s hu ids m = elim (Bool-cases (user == 1)) [
  | inl e ↦
      let one : user ≡ 1 = (==_iff user 1).0 e in
      rw one (memory_switch_lem s.cur_terminal s 0 ids.0).0
  | inr e ↦ let none : user ≡ 0 = ground arith in rw none m
]

begin-Prints : (f user : ℕ) (s : Console) → Prints f s (begin user s)
unfolding memory_switch
begin-Prints f user s = elim (Bool-cases (user == 1)) [
  | inl e ↦ rw e (record { outside = λ a h. refl; cursors = λ h. h })
  | inr e ↦ rw e (record { outside = λ a h. refl; cursors = λ h. h })
]

body-Prints :
    (c user : ℕ) (s : Console)
    → OnScreen ((begin user s).terminal (target user s))
    → Prints (video_frame (begin user s)) (begin user s) (putc c user s)
unfolding putc
body-Prints c user s on = elim (Bool-cases (c == 8)) [
  | inl e ↦ rw (e, putc) (putc_backspace-Prints (target user s) user (begin user s) on)
  | inr e ↦
      rw (e, putc)
        (elim (Bool-cases (c == b'\n' || c == b'\r')) [
          | inl f ↦ rw f (putc_newline-Prints (target user s) user (begin user s) on)
          | inr f ↦ rw f (putc_char-Prints (target user s) c user (begin user s) on)
        ])
]

-- A character printed for the running terminal, or echoed on the displayed one, changes no byte
-- outside that terminal's screen, and leaves every cursor on the screen.
pub putc-Prints :
    (c user : ℕ) (s : Console)
    → user < 2
    → TerminalIds s
    → IsMapped s
    → OnScreen (s.terminal (target user s))
    → Prints (putc_frame user s) s (putc c user s)
putc-Prints c user s hu ids m on =
    Prints-trans (putc_frame user s) s (begin user s) (putc c user s)
      (begin-Prints (putc_frame user s) user s)
      (subst (λ f. Prints f (begin user s) (putc c user s)) (begin-frame user s hu ids m)
        (body-Prints c user s (rw (begin-terminal user s) on)))

-- With every cursor on the screen, a character printed for the running terminal, or echoed on the
-- displayed one, changes no byte outside that terminal's screen, and leaves every cursor on the screen.
pub putc-isolated :
    (c user : ℕ) (s : Console)
    → user < 2
    → TerminalIds s
    → IsMapped s
    → ((t : ℕ) → OnScreen (s.terminal t))
    → ((a : ℕ) → a / 4096 ≢ putc_frame user s → (putc c user s).vmem a ≡ s.vmem a)
      × ((t : ℕ) → OnScreen ((putc c user s).terminal t))
putc-isolated c user s h ids mapped on =
    let p = putc-Prints c user s h ids mapped (on (target user s)) in (p.outside, p.cursors on)
