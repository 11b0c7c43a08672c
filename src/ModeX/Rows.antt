-- ===== src/ModeX/Rows.antt =====
-- The rows that draw_horiz_line of mp2/modex.c draws, as show_screen displays them.
use ece_391_fall.Prelude.{
  ℕ, ◌+◌, ◌-◌, ◌*◌, ◌/◌, ◌%◌, ◌^◌, ◌<◌, ◌≡◌, sym, ap, ◌∙◌, arith, false, ◌||◌, Bool-cases, inl, inr,
  ◌==◌, ==_iff, if◌then◌else◌, add32, slt, sle,
}
use ece_391_fall.ModeX.{
  ModeX, scroll_size, pixel_addr, plane_of, put_row, draw_horiz_line, show_screen,
}
use ece_391_fall.ModeX.Show.{sar2_lem, cell, cell_lem, displayed, IsWindow, show_screen-cell}
use ece_391_fall.ModeX.Cells.{cells_apart, place, place-miss, place-hit, put_row-place}

module _ (s : ModeX) (win : IsWindow s) where
  abbrev row_cells : ℕ → ℕ → ℕ
  row_cells y j =
      (s.img3 + (s.show_y + y) * 80 + (s.show_x + j) / 4 + (3 - (s.show_x + j) % 4) * scroll_size)
      % 2 ^ 32

  row_cells_lem :
      (y j : ℕ) → y < 182 → j < 320 → row_cells y j ≡ cell s (s.show_x + j) (s.show_y + y)
  unfolding IsWindow
  row_cells_lem y j hy hj =
      ap (λ a. (a + (3 - (s.show_x + j) % 4) * scroll_size) % 2 ^ 32) (omega arith)
      ∙ sym (
          cell_lem s (s.show_x + j) (s.show_y + y) (omega (arith, win.0, hj))
            (omega (arith, win.1, hy)))

  abbrev with_row : ℕ → ModeX
  with_row y = record s {
    build = place 320 (row_cells y) (s.horiz_line_fn s.show_x (s.show_y + y)) 0 s.build;
  }

  draw_horiz_line-row : (y : ℕ) → y < 182 → draw_horiz_line y s ≡ (0, with_row y)
  unfolding draw_horiz_line IsWindow
  draw_horiz_line-row y hy =
      let inside : (slt y 0 || sle 182 y) ≡ false = ground (arith, hy) in
      let row : add32 y s.show_y ≡ s.show_y + y = omega (arith, win.1, hy) in
      let buf = s.horiz_line_fn s.show_x (s.show_y + y) in
      let base = s.img3 + (s.show_y + y) * 80 in
      let start : pixel_addr s s.show_x (s.show_y + y) ≡ (base + (s.show_x + 0) / 4) % 2 ^ 32 =
        rw (sar2_lem s.show_x (omega (arith, win.0))) (omega (arith, win.1, hy)) in
      let plane : plane_of s.show_x ≡ 3 - (s.show_x + 0) % 4 = omega arith in
      rw (inside, row)
        (ap (λ b. (0, record s { build = b }))
          (ap (λ a. put_row 320 a (plane_of s.show_x) buf 0 s.build) start
            ∙ ap (λ p. put_row 320 ((base + (s.show_x + 0) / 4) % 2 ^ 32) p buf 0 s.build) plane
            ∙ put_row-place 320 0 base s.show_x buf s.build))

  row-shown :
      (y i j : ℕ)
      → y < 182
      → i < 320
      → j < 182
      → (with_row y).build (cell s (s.show_x + i) (s.show_y + j)) ≡ (
          if j == y
          then s.horiz_line_fn s.show_x (s.show_y + y) i
          else s.build (cell s (s.show_x + i) (s.show_y + j)))
  row-shown y i j hy hi hj = elim (Bool-cases (j == y)) [
    | inl e ↦
        let same = (==_iff j y).0 e in
        rw e (
          ap (with_row y).build
            (ap (λ x. cell s (s.show_x + i) (s.show_y + x)) same ∙ sym (row_cells_lem y i hy hi))
          ∙ place-hit 320 0 i (row_cells y) _ s.build (omega arith) (omega (arith, hi))
              (λ l low high f.
                let apart = cells_apart s l y i y win (omega (arith, high)) hy hi hy (
                  sym (row_cells_lem y l hy (omega (arith, high))) ∙ f ∙ row_cells_lem y i hy hi) in
                omega (arith, apart.0, low)))
    | inr e ↦ rw e (
        place-miss 320 0 _ (row_cells y) _ s.build (λ l low high f.
          let apart =
            cells_apart s l y i j win (omega (arith, high)) hy hi hj
              (sym (row_cells_lem y l hy (omega (arith, high))) ∙ f) in
          ground (arith, e, apart.1)))
  ]

-- After draw_horiz_line has drawn row `y` of the window, show_screen displays in that row the line that it
-- was given, pixel by pixel, and in every other row what it would have displayed before.
pub draw_horiz_line-displayed :
    (y i j : ℕ) (s : ModeX)
    → y < 182
    → i < 320
    → j < 182
    → IsWindow s
    → displayed (show_screen (draw_horiz_line y s).1) i j ≡ (
        if j == y then s.horiz_line_fn s.show_x (s.show_y + y) i else displayed (show_screen s) i j)
unfolding IsWindow
draw_horiz_line-displayed y i j s hy hi hj win =
    ap (λ (r : ℕ × ModeX). displayed (show_screen r.1) i j) (draw_horiz_line-row s win y hy)
    ∙ show_screen-cell i j (with_row s win y) hi hj win
    ∙ row-shown s win y i j hy hi hj
    ∙ ap (λ v. if j == y then s.horiz_line_fn s.show_x (s.show_y + y) i else v)
        (sym (show_screen-cell i j s hi hj win))
