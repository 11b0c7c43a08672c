-- ===== src/Console/Scroll.antt =====
-- The two loops over the whole screen: scrolling and clearing.
use ece_391_fall.Prelude.{
  ℕ, zero, suc, ◌+◌, ◌-◌, ◌*◌, ◌/◌, ◌%◌, ◌^◌, ◌<◌, ◌≡◌, refl, arith, ltb, leb, ◌==◌, ◌&&◌,
  if◌then◌else◌, dec_lt, lt→ltb, le→ltb, ◌∙◌,
}
use ece_391_fall.Memory.{Mem, store}
use ece_391_fall.Paging.{Pte, video}
use ece_391_fall.Console.{video_mem, scroll_from, blank_from, attrib}

-- Within the page, video memory is the frame that the table names.
pub video_mem-frame :
    (t : ℕ → Pte) (f off : ℕ)
    → (t 0xB8).page_base_address ≡ f
    → off < 4096
    → video_mem t off ≡ f * 4096 + off
video_mem-frame t f off e h =
    let page : (video + off) / 2 ^ 12 ≡ 0xB8 = omega arith in rw (page, e) (omega arith)

-- The screen in frame `f` after the cells from `i` on have moved up a row: the characters of the
-- first 24 rows come from the row below, the last row is blank.
abbrev pub scrolled : ℕ → ℕ → Mem → Mem
scrolled f i m a =
    if leb (f * 4096 + 2 * i) a && ltb a (f * 4096 + 4000)
    then if ltb a (f * 4096 + 3840)
      then if (a - f * 4096) % 2 == 0 then m (a + 160) else m a
      else if (a - f * 4096) % 2 == 0
      then b' '
      else attrib
    else m a

-- The screen in frame `f` after the cells from `i` on have been cleared.
abbrev pub blanked : ℕ → ℕ → Mem → Mem
blanked f i m a =
    if leb (f * 4096 + 2 * i) a && ltb a (f * 4096 + 4000)
    then if (a - f * 4096) % 2 == 0 then b' ' else attrib
    else m a

blank_from_lem :
    (k : ℕ) (t : ℕ → Pte) (f i : ℕ) (m : Mem) (a : ℕ)
    → (t 0xB8).page_base_address ≡ f
    → i + k ≡ 2000
    → blank_from k t i m a ≡ blanked f i m a
unfolding blank_from
blank_from_lem zero t f i m a e h = ground arith
blank_from_lem (suc k) t f i m a e h =
    rw
      (video_mem-frame t f (2 * i) e (omega arith), video_mem-frame t f (2 * i + 1) e (omega arith))
      (ground (
        arith,
        blank_from_lem k t f (i + 1)
            (store (store m (f * 4096 + 2 * i) b' ') (f * 4096 + (2 * i + 1)) attrib) a,
      ))

-- One round moves one cell.
abbrev move_cell : ℕ → ℕ → Mem → Mem
move_cell f i m =
    if ltb i 1920
    then store m (f * 4096 + 2 * i) (m (f * 4096 + 2 * (i + 80)))
    else store (store m (f * 4096 + 2 * i) b' ') (f * 4096 + (2 * i + 1)) attrib

scrolled-move_cell :
    (f i : ℕ) (m : Mem) (a : ℕ)
    → i < 2000
    → scrolled f (i + 1) (move_cell f i m) a ≡ scrolled f i m a
scrolled-move_cell f i m a h = elim (dec_lt i 1920) [
  | yes lt ↦ rw (lt→ltb i 1920 lt) (ground arith)
  | no ge ↦ rw (le→ltb i 1920 (omega arith)) (ground arith)
]

scroll_from_lem :
    (k : ℕ) (t : ℕ → Pte) (f i : ℕ) (m : Mem) (a : ℕ)
    → (t 0xB8).page_base_address ≡ f
    → i + k ≡ 2000
    → scroll_from k t i m a ≡ scrolled f i m a
unfolding scroll_from
scroll_from_lem zero t f i m a e h = ground arith
scroll_from_lem (suc k) t f i m a e h = elim (dec_lt i 1920) [
  | yes lt ↦
      rw
        (
          lt→ltb i 1920 lt,
          video_mem-frame t f (2 * i) e (omega arith),
          video_mem-frame t f (2 * (i + 80)) e (omega arith),
        )
        (scroll_from_lem k t f (i + 1) _ a e (omega arith)
          ∙ (rw (lt→ltb i 1920 lt) at (scrolled-move_cell f i m a (omega arith))))
  | no ge ↦
      rw
        (
          le→ltb i 1920 (omega arith),
          video_mem-frame t f (2 * i) e (omega arith),
          video_mem-frame t f (2 * i + 1) e (omega arith),
        )
        (scroll_from_lem k t f (i + 1) _ a e (omega arith)
          ∙ (rw (le→ltb i 1920 (omega arith)) at (scrolled-move_cell f i m a (omega arith))))
]

-- The scrolling loop moves the characters of every row but the last up by one row, blanks the
-- last row, and touches nothing outside the screen's 4000 bytes.
pub scroll_lem :
    (t : ℕ → Pte) (f : ℕ) (m : Mem) (a : ℕ)
    → (t 0xB8).page_base_address ≡ f
    → scroll_from 2000 t 0 m a ≡ scrolled f 0 m a
scroll_lem t f m a e = scroll_from_lem 2000 t f 0 m a e refl

-- The clearing loop blanks the screen's 2000 cells and touches nothing else.
pub blank_lem :
    (t : ℕ → Pte) (f : ℕ) (m : Mem) (a : ℕ)
    → (t 0xB8).page_base_address ≡ f
    → blank_from 2000 t 0 m a ≡ blanked f 0 m a
blank_lem t f m a e = blank_from_lem 2000 t f 0 m a e refl
