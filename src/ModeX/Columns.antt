-- ===== src/ModeX/Columns.antt =====
-- The columns that draw_vert_line of mp2/modex.c draws, as show_screen displays them.
use ece_391_fall.Prelude.{
  ℕ, ◌+◌, ◌-◌, ◌*◌, ◌/◌, ◌%◌, ◌^◌, ◌<◌, ◌≡◌, sym, ap, ◌∙◌, arith, false, ◌||◌, Bool-cases, inl, inr,
  ◌==◌, ==_iff, if◌then◌else◌, add32, slt, sle,
}
use ece_391_fall.ModeX.{
  ModeX, scroll_size, pixel_addr, plane_of, put_column, draw_vert_line, show_screen,
}
use ece_391_fall.ModeX.Show.{sar2_lem, cell, cell_lem, displayed, IsWindow, show_screen-cell}
use ece_391_fall.ModeX.Cells.{cells_apart, place, place-miss, place-hit, put_column-place}

module _ (s : ModeX) (win : IsWindow s) where
  abbrev column_cells : ℕ → ℕ → ℕ
  column_cells x j =
      (s.img3
        + (s.show_x + x) / 4
        + s.show_y * 80
        + j * 80
        + (3 - (s.show_x + x) % 4) * scroll_size)
      % 2 ^ 32

  column_cells_lem :
      (x j : ℕ) → x < 320 → j < 182 → column_cells x j ≡ cell s (s.show_x + x) (s.show_y + j)
  unfolding IsWindow
  column_cells_lem x j hx hj =
      ap (λ a. (a + (3 - (s.show_x + x) % 4) * scroll_size) % 2 ^ 32) (omega arith)
      ∙ sym (
          cell_lem s (s.show_x + x) (s.show_y + j) (omega (arith, win.0, hx))
            (omega (arith, win.1, hj)))

  abbrev with_column : ℕ → ModeX
  with_column x = record s {
    build = place 182 (column_cells x) (s.vert_line_fn (s.show_x + x) s.show_y) 0 s.build;
  }

  draw_vert_line-column : (x : ℕ) → x < 320 → draw_vert_line x s ≡ (0, with_column x)
  unfolding draw_vert_line IsWindow
  draw_vert_line-column x hx =
      let inside : (slt x 0 || sle 320 x) ≡ false = ground (arith, hx) in
      let column : add32 x s.show_x ≡ s.show_x + x = omega (arith, win.0, hx) in
      let buf = s.vert_line_fn (s.show_x + x) s.show_y in
      let base = s.img3 + (s.show_x + x) / 4 + s.show_y * 80 in
      let start : pixel_addr s (s.show_x + x) s.show_y ≡ (base + 0 * 80) % 2 ^ 32 =
        rw (sar2_lem (s.show_x + x) (omega (arith, win.0, hx))) (omega (arith, win.1)) in
      rw (inside, column)
        (ap (λ b. (0, record s { build = b }))
          (ap (λ a. put_column 182 a (plane_of (s.show_x + x)) buf 0 s.build) start
            ∙ put_column-place 182 0 base (plane_of (s.show_x + x)) buf s.build))

  column-shown :
      (x i j : ℕ)
      → x < 320
      → i < 320
      → j < 182
      → (with_column x).build (cell s (s.show_x + i) (s.show_y + j)) ≡ (
          if i == x
          then s.vert_line_fn (s.show_x + x) s.show_y j
          else s.build (cell s (s.show_x + i) (s.show_y + j)))
  column-shown x i j hx hi hj = elim (Bool-cases (i == x)) [
    | inl e ↦
        let same = (==_iff i x).0 e in
        rw e (
          ap (with_column x).build
            (ap (λ a. cell s (s.show_x + a) (s.show_y + j)) same ∙ sym (column_cells_lem x j hx hj))
          ∙ place-hit 182 0 j (column_cells x) _ s.build (omega arith) (omega (arith, hj))
              (λ l low high f.
                let apart = cells_apart s x l x j win hx (omega (arith, high)) hx hj (
                  sym (column_cells_lem x l hx (omega (arith, high)))
                  ∙ f
                  ∙ column_cells_lem x j hx hj) in
                omega (arith, apart.1, low)))
    | inr e ↦ rw e (
        place-miss 182 0 _ (column_cells x) _ s.build (λ l low high f.
          let apart =
            cells_apart s x l i j win hx (omega (arith, high)) hi hj
              (sym (column_cells_lem x l hx (omega (arith, high))) ∙ f) in
          ground (arith, e, apart.0)))
  ]

-- After draw_vert_line has drawn column `x` of the window, show_screen displays in that column the line that
-- it was given, and in every other column what it would have displayed before.
pub draw_vert_line-displayed :
    (x i j : ℕ) (s : ModeX)
    → x < 320
    → i < 320
    → j < 182
    → IsWindow s
    → displayed (show_screen (draw_vert_line x s).1) i j
      ≡ (if i == x then s.vert_line_fn (s.show_x + x) s.show_y j else displayed (show_screen s) i j)
unfolding IsWindow
draw_vert_line-displayed x i j s hx hi hj win =
    ap (λ (r : ℕ × ModeX). displayed (show_screen r.1) i j) (draw_vert_line-column s win x hx)
    ∙ show_screen-cell i j (with_column s win x) hi hj win
    ∙ column-shown s win x i j hx hi hj
    ∙ ap (λ v. if i == x then s.vert_line_fn (s.show_x + x) s.show_y j else v)
        (sym (show_screen-cell i j s hi hj win))
