-- ===== src/ModeX/Moves.antt =====
-- What set_view_window of mp2/modex.c keeps of the picture.
use ece_391_fall.Prelude.{
  ℕ, ◌+◌, ◌-◌, ◌*◌, ◌/◌, ◌%◌, ◌^◌, ◌≤◌, ◌<◌, ◌≡◌, refl, sym, ap, ◌∙◌, arith, false, ◌||◌,
  Bool-cases, inl, inr, ltb, if◌then◌else◌, add32, sub32, slt, sle,
}
use ece_391_fall.ModeX.{
  ModeX, scroll_size, scroll_x_width, sar2, copy_up, copy_down, fits, rebase, move_window,
  set_view_window,
}
use ece_391_fall.ModeX.Show.{sar2_lem, cell, cell_lem}
use ece_391_fall.ModeX.Copies.{copy_lem}
use ece_391_fall.ModeX.Window.{Inside, OnMap}

-- The later and the earlier of two coordinates, by the signed test.
abbrev later : ℕ → ℕ → ℕ
later a b = if slt a b then b else a

abbrev earlier : ℕ → ℕ → ℕ
earlier a b = if slt a b then a else b

later_lem :
    (a b c : ℕ)
    → a < 2 ^ 20
    → b < 2 ^ 20
    → a ≤ c
    → b ≤ c
    → (a ≤ later a b) × (b ≤ later a b) × (later a b ≤ c)
later_lem a b c ha hb h h' =
    (ground (arith, ha, hb), ground (arith, ha, hb), ground (arith, ha, hb, h, h'))

earlier_lem :
    (a b c d : ℕ)
    → a < 2 ^ 20
    → b < 2 ^ 20
    → c < a + d
    → c < b + d
    → (earlier a b ≤ a) × (earlier a b ≤ b) × (c < earlier a b + d)
earlier_lem a b c d ha hb h h' =
    (ground (arith, ha, hb), ground (arith, ha, hb), ground (arith, ha, hb, h, h'))

-- The byte of the first plane with the window's first pixel.
first_byte :
    (s : ModeX)
    → OnMap s.show_x s.show_y
    → Inside s
    → ((s.img3 + s.show_x / 4 + s.show_y * 80) % 2 ^ 32 < 2 ^ 20)
unfolding Inside
first_byte s map inside =
    let i : ℕ = 3 - s.show_x % 4 in
    let at =
      cell_lem s (s.show_x + i) (s.show_y + 0) (omega (arith, map.0)) (omega (arith, map.1)) in
    let bound = inside i 0 (omega arith) (omega arith) in omega (arith, at, bound, map)

-- The addresses that move_window computes from its four corners.
abbrev offset : ℕ → ℕ → ℕ
offset x y = add32 (sar2 x) ((y * scroll_x_width) % 2 ^ 32)

abbrev span : ℕ → ℕ → ℕ → ℕ → ℕ
span sx sy ex ey =
    add32 (sub32 (add32 (offset (add32 ex 319) (add32 ey 181)) 1) (offset sx sy)) (3 * scroll_size)

offset_lem : (x y : ℕ) → x < 2 ^ 20 → y < 2 ^ 20 → offset x y ≡ x / 4 + y * 80
offset_lem x y hx hy = rw (sar2_lem x (omega (arith, hx))) (omega (arith, hx, hy))

span_lem :
    (sx sy ex ey : ℕ)
    → ex + 320 < 2 ^ 20
    → ey + 182 < 2 ^ 20
    → sx ≤ ex + 319
    → sy ≤ ey + 181
    → span sx sy ex ey ≡ (ex + 319) / 4 + (ey + 181) * 80 + 1 - (sx / 4 + sy * 80) + 3 * scroll_size
span_lem sx sy ex ey hx hy lx ly =
    let end_x : add32 ex 319 ≡ ex + 319 = omega (arith, hx) in
    let end_y : add32 ey 181 ≡ ey + 181 = omega (arith, hy) in
    rw
      (
        end_x,
        end_y,
        offset_lem (ex + 319) (ey + 181) (omega (arith, hx)) (omega (arith, hy)),
        offset_lem sx sy (omega (arith, hx, lx)) (omega (arith, hy, ly)),
      )
      (omega (arith, hx, hy, lx, ly))

module _ (x y i j : ℕ) (s : ModeX) (new : OnMap x y) (old : OnMap s.show_x s.show_y)
    (inside : Inside s) (hi : i < 320) (hj : j < 182) (left : s.show_x ≤ x + i)
    (right : x + i < s.show_x + 320) (top : s.show_y ≤ y + j)
    (bottom : y + j < s.show_y + 182) where
  abbrev s1 : ModeX
  s1 = record s { show_x = x; show_y = y }

  moved-cell :
      (move_window s.show_x s.show_y s1).build
        (cell (move_window s.show_x s.show_y s1) (x + i) (y + j))
      ≡ s.build (cell s (x + i) (y + j))
  unfolding move_window
  moved-cell =
      let sx = later s.show_x x in
      let sy = later s.show_y y in
      let ex = earlier s.show_x x in
      let ey = earlier s.show_y y in
      let hsx =
        later_lem s.show_x x (x + i) (omega (arith, old.0)) (omega (arith, new.0)) left
          (omega arith) in
      let hsy =
        later_lem s.show_y y (y + j) (omega (arith, old.1)) (omega (arith, new.1)) top
          (omega arith) in
      let hex =
        earlier_lem s.show_x x (x + i) 320 (omega (arith, old.0)) (omega (arith, new.0)) right
          (omega (arith, hi)) in
      let hey =
        earlier_lem s.show_y y (y + j) 182 (omega (arith, old.1)) (omega (arith, new.1)) bottom
          (omega (arith, hj)) in
      let img3 = (rebase s1).img3 in
      let start_off =
        offset_lem sx sy (omega (arith, hsx, new.0, hi)) (omega (arith, hsy, new.1, hj)) in
      let start = add32 s.img3 (offset sx sy) in
      let target = add32 img3 (offset sx sy) in
      let len = span sx sy ex ey in
      let len_eq =
        span_lem sx sy ex ey (omega (arith, hex, old.0)) (omega (arith, hey, old.1))
          (omega (arith, hsx, hex)) (omega (arith, hsy, hey)) in
      let plane : ℕ = 3 - (x + i) % 4 in
      let d : ℕ = (x + i) / 4 + (y + j) * 80 - (sx / 4 + sy * 80) + plane * scroll_size in
      let first = first_byte s old inside in
      let middle : (img3 + x / 4 + y * 80) % 2 ^ 32 ≡ 10256 =
        rw (sar2_lem x (omega (arith, new.0))) (omega (arith, new)) in
      let cell_old =
        cell_lem s (x + i) (y + j) (omega (arith, new.0, hi)) (omega (arith, new.1, hj)) in
      let cell_new =
        cell_lem (rebase s1) (x + i) (y + j) (omega (arith, new.0, hi))
          (omega (arith, new.1, hj)) in
      ap
        (λ c.
          (if ltb start target
              then copy_down len target start s.build
              else copy_up len target start 0 s.build)
            c)
        (cell_new ∙ omega (arith, start_off, middle, hsx, hsy, hi, hj, new))
      ∙ copy_lem len target start d s.build (omega (arith, len_eq, hsx, hsy, hex, hey))
          (omega (arith, start_off, len_eq, first, hsx, hsy, hex, hey, left, top, hi, hj, new, old))
          (omega (arith, start_off, len_eq, middle, hsx, hsy, hex, hey, hi, hj, new, old))
      ∙ ap s.build (omega (arith, start_off, first, hsx, hsy, hi, hj, new, old) ∙ sym cell_old)

  -- Windows that share a pixel are not apart.
  overlap :
      (sle x (sub32 s.show_x 320)
        || sle (add32 s.show_x 320) x
        || sle y (sub32 s.show_y 182)
        || sle (add32 s.show_y 182) y)
      ≡ false
  overlap =
      let a : sle x (sub32 s.show_x 320) ≡ false = ground (arith, new, old, left, right, hi) in
      let b : sle (add32 s.show_x 320) x ≡ false = ground (arith, new, old, left, right, hi) in
      let c : sle y (sub32 s.show_y 182) ≡ false = ground (arith, new, old, top, bottom, hj) in
      let d : sle (add32 s.show_y 182) y ≡ false = ground (arith, new, old, top, bottom, hj) in
      rw (a, b, c, d) refl

-- Every pixel of the map that is in the old view window and in the new one has the same byte in the build buffer
-- after set_view_window as before, also where the picture is moved and the two places overlap, so that only the
-- part that scrolls into view has to be drawn.
pub set_view_window-keeps :
    (x y i j : ℕ) (s : ModeX)
    → OnMap x y
    → OnMap s.show_x s.show_y
    → Inside s
    → i < 320
    → j < 182
    → s.show_x ≤ x + i
    → x + i < s.show_x + 320
    → s.show_y ≤ y + j
    → y + j < s.show_y + 182
    → (set_view_window x y s).build (cell (set_view_window x y s) (x + i) (y + j))
      ≡ s.build (cell s (x + i) (y + j))
unfolding set_view_window
set_view_window-keeps x y i j s new old inside hi hj left right top bottom =
    elim (Bool-cases (fits s.img3_off x y)) [
      | inl e ↦ rw e refl
      | inr e ↦
          rw (e, overlap x y i j s new old inside hi hj left right top bottom)
            (moved-cell x y i j s new old inside hi hj left right top bottom)
    ]
