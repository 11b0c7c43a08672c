-- ===== src/Console/Mapping.antt =====
-- Which screen the kernel's video page stands for: between calls it is the running terminal's.
use ece_391_fall.Prelude.{
  ℕ, ◌+◌, ◌-◌, ◌<◌, ◌≡◌, ◌≢◌, inl, inr, refl, arith, leb, ◌==◌, ◌&&◌, ◌||◌, true, false, List, [],
  ◌∷◌, Bool-cases, ==_iff, if◌then◌else◌,
}
use ece_391_fall.Console.{
  Console, screen_frame, memory_switch, update_cursor, wrap_row, putc_backspace, putc_newline,
  putc_char, putc, puts, leave,
}

-- The frame behind the kernel's video page.
abbrev pub video_frame : Console → ℕ
video_frame s = (s.paging.page_table 0xB8).page_base_address

abbrev pub IsMapped : Console → Type 0
IsMapped s = video_frame s ≡ screen_frame s.cur_terminal s.run_terminal

-- The terminals on the screen and in the processor are among the three.
abbrev pub TerminalIds : Console → Type 0
TerminalIds s = (s.cur_terminal < 3) × (s.run_terminal < 3)

-- memory_switch puts the screen of the terminal behind the video page: the display for the
-- current terminal, its backup for another; and it changes no other entry of the table.
pub memory_switch_lem :
    (id : ℕ) (s : Console) (j : ℕ)
    → id < 3
    → (video_frame (memory_switch id s) ≡ screen_frame s.cur_terminal id)
      × (j ≢ 0xB8 → (memory_switch id s).paging.page_table j ≡ s.paging.page_table j)
unfolding memory_switch
memory_switch_lem id s j h = (ground arith, λ ne. ground arith)

pub memory_switch-ids :
    (id : ℕ) (s : Console)
    → ((memory_switch id s).cur_terminal ≡ s.cur_terminal)
      × ((memory_switch id s).run_terminal ≡ s.run_terminal)
unfolding memory_switch
memory_switch-ids id s = (refl, refl)

-- What the printing functions do to the page tables and to the terminals' numbers.
abbrev pub Leaves : Console → Console → ℕ → Type 0
Leaves s s' user =
    (s'.paging ≡ (if user == 1 then (memory_switch s.run_terminal s).paging else s.paging))
    × (s'.cur_terminal ≡ s.cur_terminal)
    × (s'.run_terminal ≡ s.run_terminal)

-- The steps before the last one leave these alone.
abbrev pub Keeps : Console → Console → Type 0
Keeps s s' =
    (s'.paging ≡ s.paging) × (s'.cur_terminal ≡ s.cur_terminal) × (s'.run_terminal ≡ s.run_terminal)

pub wrap_row-Keeps : (tid x y : ℕ) (s : Console) → Keeps s (wrap_row tid x y s)
unfolding wrap_row
wrap_row-Keeps tid x y s = elim (Bool-cases (leb 25 y)) [
  | inl e ↦ rw (e, wrap_row) (refl, refl, refl)
  | inr e ↦ rw (e, wrap_row) (refl, refl, refl)
]

leave-Leaves : (user : ℕ) (s s' : Console) → Keeps s s' → Leaves s (leave user s') user
unfolding memory_switch
leave-Leaves user s s' k = elim (Bool-cases (user == 1)) [
  | inl e ↦ rw e (rw (k.0, k.1, k.2) (refl, refl, refl))
  | inr e ↦ rw e k
]

pub putc_newline-Leaves : (tid user : ℕ) (s : Console) → Leaves s (putc_newline tid user s) user
unfolding putc_newline update_cursor
putc_newline-Leaves tid user s = leave-Leaves user s _ (wrap_row-Keeps tid 0 _ s)

pub putc_char-Leaves : (tid c user : ℕ) (s : Console) → Leaves s (putc_char tid c user s) user
unfolding putc_char update_cursor
putc_char-Leaves tid c user s = elim (Bool-cases (leb 80 (s.terminal tid).cursor_x)) [
  | inl e ↦ rw (e, putc_char) (leave-Leaves user s _ (wrap_row-Keeps tid 0 _ s))
  | inr e ↦ rw (e, putc_char) (leave-Leaves user s _ (refl, refl, refl))
]

pub putc_backspace-Leaves :
    (tid user : ℕ) (s : Console)
    → ((s.terminal tid).cursor_x == 0 && (s.terminal tid).cursor_y == 0) ≡ false
    → Leaves s (putc_backspace tid user s) user
unfolding putc_backspace update_cursor
putc_backspace-Leaves tid user s h =
    rw (h, putc_backspace)
      (elim (Bool-cases (back == 255)) [
        | inl e ↦ rw e (leave-Leaves user s _ (refl, refl, refl))
        | inr e ↦ rw e (leave-Leaves user s _ (refl, refl, refl))
      ])
  where
    back : ℕ
    back = (if (s.terminal tid).cursor_x == 0 then 80 else (s.terminal tid).cursor_x) - 1

-- The first return of the backspace branch leaves everything as it is.
pub putc_backspace-home :
    (tid user : ℕ) (s : Console)
    → (s.terminal tid).cursor_x ≡ 0
    → (s.terminal tid).cursor_y ≡ 0
    → putc_backspace tid user s ≡ s
unfolding putc_backspace
putc_backspace-home tid user s hx hy =
    let home : ((s.terminal tid).cursor_x == 0 && (s.terminal tid).cursor_y == 0) ≡ true =
      ground arith in
    rw (home, putc_backspace)

-- A backspace that is echoed where the cursor of the displayed terminal stands at the top left.
abbrev pub HomeBackspace : ℕ → ℕ → Console → Type 0
HomeBackspace c user s =
    (c ≡ 8)
    × (user ≡ 1)
    × ((s.terminal s.cur_terminal).cursor_x ≡ 0)
    × ((s.terminal s.cur_terminal).cursor_y ≡ 0)

pub Leaves-IsMapped :
    (s s' : Console) (user : ℕ)
    → s.run_terminal < 3
    → (user ≢ 1 → IsMapped s)
    → Leaves s s' user
    → IsMapped s'
unfolding memory_switch
Leaves-IsMapped s s' user h m k = ground arith

-- The state in which the branches of putc start.
abbrev pub begin : ℕ → Console → Console
begin user s = if user == 1 then memory_switch s.cur_terminal s else s

abbrev pub target : ℕ → Console → ℕ
target user s = if user == 0 then s.run_terminal else s.cur_terminal

pub begin-terminal : (user : ℕ) (s : Console) → (begin user s).terminal ≡ s.terminal
unfolding memory_switch
begin-terminal user s = ground arith

pub begin-ids :
    (user : ℕ) (s : Console)
    → ((begin user s).cur_terminal ≡ s.cur_terminal)
      × ((begin user s).run_terminal ≡ s.run_terminal)
unfolding memory_switch
begin-ids user s = ground arith

pub begin-other : (user : ℕ) (s : Console) → user ≢ 1 → begin user s ≡ s
begin-other user s ne = let e : (user == 1) ≡ false = ground arith in rw e

backspace_start-Leaves :
    (c user : ℕ) (s : Console)
    → c ≡ 8
    → ¬ HomeBackspace c user s
    → Leaves (begin user s) (putc_backspace (target user s) user (begin user s)) user
backspace_start-Leaves c user s hc h =
    let t = (begin user s).terminal (target user s) in
    elim (Bool-cases (t.cursor_x == 0 && t.cursor_y == 0)) [
      | inr away ↦ putc_backspace-Leaves (target user s) user (begin user s) away
      | inl home ↦
          let x : t.cursor_x ≡ 0 = ground arith in
          let y : t.cursor_y ≡ 0 = ground arith in
          rw (putc_backspace-home (target user s) user (begin user s) x y)
            (elim (Bool-cases (user == 1)) [
              | inl e ↦ absurd (h (ground (arith, hc, x, y, begin-terminal user s)))
              | inr e ↦ rw e (refl, refl, refl)
            ])
    ]

-- Outside the echo of a backspace at the top left, putc ends with the page tables as its
-- caller's mode asks.
pub putc-Leaves :
    (c user : ℕ) (s : Console)
    → ¬ HomeBackspace c user s
    → Leaves (begin user s) (putc c user s) user
unfolding putc
putc-Leaves c user s h = elim (Bool-cases (c == 8)) [
  | inl e ↦ rw (e, putc) (backspace_start-Leaves c user s ((==_iff c 8).0 e) h)
  | inr e ↦
      rw (e, putc)
        (elim (Bool-cases (c == b'\n' || c == b'\r')) [
          | inl f ↦ rw f (putc_newline-Leaves (target user s) user (begin user s))
          | inr f ↦ rw f (putc_char-Leaves (target user s) c user (begin user s))
        ])
]

-- From a state where the video page has the running terminal's screen, putc leaves it so unless it
-- echoes a backspace at the top left.
pub putc-IsMapped :
    (c user : ℕ) (s : Console)
    → TerminalIds s
    → IsMapped s
    → ¬ HomeBackspace c user s
    → IsMapped (putc c user s)
putc-IsMapped c user s ids m h =
    Leaves-IsMapped (begin user s) (putc c user s) user (ground (arith, (begin-ids user s).1))
      (λ ne. rw (begin-other user s ne) m) (putc-Leaves c user s h)

putc-home :
    (c user : ℕ) (s : Console)
    → HomeBackspace c user s
    → putc c user s ≡ memory_switch s.cur_terminal s
unfolding putc memory_switch
putc-home c user s (hc, hu, hx, hy) =
    rw (hc, hu) (putc_backspace-home s.cur_terminal 1 (memory_switch s.cur_terminal s) hx hy)

-- The echo of a backspace at the top left, for a terminal that is not the running one, leaves the
-- display behind the video page: the running program's output then goes to the wrong screen.
pub putc-HomeBackspace :
    (c user : ℕ) (s : Console)
    → TerminalIds s
    → HomeBackspace c user s
    → s.cur_terminal ≢ s.run_terminal
    → (video_frame (putc c user s) ≡ 0xB8) × ¬ IsMapped (putc c user s)
putc-HomeBackspace c user s ids h ne = rw (putc-home c user s h) (
    ground
      (arith, (memory_switch_lem s.cur_terminal s 0 ids.0).0, memory_switch-ids s.cur_terminal s))

pub puts-IsMapped :
    (cs : List ℕ) (i : ℕ) (s : Console) → TerminalIds s → IsMapped s → IsMapped (puts cs i s).1
unfolding puts
puts-IsMapped [] i s ids m = m
puts-IsMapped (c ∷ cs) i s ids m =
    let still = putc-Leaves c 0 s (λ h. cc h.1) in
    elim (Bool-cases (c == 0)) [
      | inl e ↦ rw (e, puts) m
      | inr e ↦
          rw (e, puts)
            (puts-IsMapped cs (i + 1) (putc c 0 s) (rw (still.1, still.2) ids)
              (putc-IsMapped c 0 s ids m (λ h. cc h.1)))
    ]
