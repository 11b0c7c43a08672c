-- ===== src/ModeX/Window.antt =====
-- Where set_view_window of mp2/modex.c places the view window in the build buffer.
use ece_391_fall.Prelude.{
  ℕ, ◌+◌, ◌-◌, ◌*◌, ◌/◌, ◌%◌, ◌^◌, ◌≤◌, ◌<◌, ◌≡◌, refl, arith, Bool, true, false, ◌&&◌, Bool-cases,
  inl, inr, if◌then◌else◌, add32, slt, sle,
}
use ece_391_fall.ModeX.{
  ModeX, scroll_size, scroll_x_width, build_buf_size, mem_fence_width, sar2, fits, rebase,
  move_window, set_view_window,
}
use ece_391_fall.ModeX.Show.{sar2_lem, cell, cell_lem}

-- `img3` belongs to `img3_off`, which is far from where an int wraps.
unfoldable pub IsPlaced : ModeX → Type 0
IsPlaced s =
    (s.img3 ≡ add32 s.img3_off mem_fence_width)
    × (s.img3_off < 2 ^ 32)
    × ((s.img3_off + 2 ^ 28) % 2 ^ 32 < 2 ^ 29)

-- A window of a map.
abbrev pub OnMap : ℕ → ℕ → Type 0
OnMap x y = (x + 320 < 2 ^ 20) × (y + 182 < 2 ^ 20)

-- All pixels of the window stand in the build buffer, between the fences.
unfoldable pub Inside : ModeX → Type 0
Inside s =
    (i j : ℕ)
    → i < 320
    → j < 182
    → (mem_fence_width ≤ cell s (s.show_x + i) (s.show_y + j))
      × (cell s (s.show_x + i) (s.show_y + j) < mem_fence_width + build_buf_size)

sum_lem :
    (x y : ℕ) (off : ℕ)
    → OnMap x y
    → add32 (add32 off (sar2 x)) ((y * scroll_x_width) % 2 ^ 32) ≡ (off + x / 4 + y * 80) % 2 ^ 32
sum_lem x y off h = rw (sar2_lem x (omega (arith, h.0))) (omega arith)

-- The least and the greatest byte of the window.
bounds-Inside :
    (s : ModeX)
    → OnMap s.show_x s.show_y
    → IsPlaced s
    → (s.img3_off + s.show_x / 4 + s.show_y * 80) % 2 ^ 32 < 2 ^ 31
    → ((s.img3_off + s.show_x / 4 + s.show_y * 80) % 2 ^ 32)
        + 3 * scroll_size
        + ((s.show_x + 319) / 4 - s.show_x / 4)
        + 181 * 80
      < build_buf_size
    → Inside s
unfolding Inside IsPlaced
bounds-Inside s map placed low high i j hi hj =
    rw
      (cell_lem s (s.show_x + i) (s.show_y + j) (omega (arith, map.0, hi))
        (omega (arith, map.1, hj)))
      (omega (arith, map, placed, low, high, hi, hj), omega (arith, map, placed, low, high, hi, hj))

both : (a b : Bool) → (a && b) ≡ true → (a ≡ true) × (b ≡ true)
both a b h = (ground (arith, h), ground (arith, h))

not_negative : (a : ℕ) → a < 2 ^ 32 → sle 0 a ≡ true → a < 2 ^ 31
not_negative a small h = ground (arith, small, h)

below : (a : ℕ) → slt a build_buf_size ≡ true → (a + 2 ^ 31) % 2 ^ 32 < build_buf_size + 2 ^ 31
below a h = ground (arith, h)

fits-Inside :
    (x y : ℕ) (s : ModeX)
    → OnMap x y
    → IsPlaced s
    → fits s.img3_off x y ≡ true
    → Inside (record s { show_x = x; show_y = y })
unfolding IsPlaced
fits-Inside x y s map placed h =
    let first = add32 (add32 s.img3_off (sar2 x)) ((y * scroll_x_width) % 2 ^ 32) in
    let last =
      add32 (add32 (add32 s.img3_off (3 * scroll_size)) (sar2 (add32 x 319)))
        ((add32 y 181 * scroll_x_width) % 2 ^ 32) in
    let (h0, h1) = both (sle 0 first) (slt last build_buf_size) h in
    let first_eq = sum_lem x y s.img3_off map in
    let last_eq : last ≡ (s.img3_off + 3 * scroll_size + (x + 319) / 4 + (y + 181) * 80) % 2 ^ 32 =
      let end : add32 x 319 ≡ x + 319 = omega (arith, map.0) in
      rw (end, sar2_lem (x + 319) (omega (arith, map.0))) (omega (arith, map.1)) in
    let low = not_negative first (omega arith) h0 in
    let high = below last h1 in
    bounds-Inside (record s { show_x = x; show_y = y }) map placed (omega (arith, first_eq, low))
      (omega (arith, first_eq, low, last_eq, high, map, placed))

rebase-IsPlaced : (s : ModeX) → OnMap s.show_x s.show_y → IsPlaced (rebase s)
unfolding IsPlaced
rebase-IsPlaced s map =
    rw (sar2_lem s.show_x (omega (arith, map.0))) (refl, omega (arith, map), omega (arith, map))

rebase-Inside : (s : ModeX) → OnMap s.show_x s.show_y → Inside (rebase s)
rebase-Inside s map =
    bounds-Inside (rebase s) map (rebase-IsPlaced s map)
      (rw (sar2_lem s.show_x (omega (arith, map.0))) (omega (arith, map)))
      (rw (sar2_lem s.show_x (omega (arith, map.0))) (omega (arith, map)))

if-Inside :
    (b : Bool) (s t : ModeX)
    → IsPlaced s × Inside s
    → IsPlaced t × Inside t
    → IsPlaced (if b then s else t) × Inside (if b then s else t)
if-Inside true s t h h' = h
if-Inside false s t h h' = h'

moved-Inside :
    (x y : ℕ) (s : ModeX)
    → OnMap s.show_x s.show_y
    → IsPlaced (move_window x y s) × Inside (move_window x y s)
unfolding move_window IsPlaced Inside
moved-Inside x y s map = (rebase-IsPlaced s map, rebase-Inside s map)

-- Wherever the view window is put on the map, set_view_window leaves all of its pixels, of each of the four planes, inside
-- the build buffer, so that drawing into the window and showing it stay between the memory fences.
pub set_view_window-Inside :
    (x y : ℕ) (s : ModeX)
    → OnMap x y
    → IsPlaced s
    → IsPlaced (set_view_window x y s) × Inside (set_view_window x y s)
unfolding set_view_window IsPlaced
set_view_window-Inside x y s map placed =
    let s1 = record s { show_x = x; show_y = y } in
    elim (Bool-cases (fits s.img3_off x y)) [
      | inl e ↦ rw e (placed, fits-Inside x y s map placed e)
      | inr e ↦ rw e (
          if-Inside _ (rebase s1) (move_window s.show_x s.show_y s1)
            (rebase-IsPlaced s1 map, rebase-Inside s1 map) (moved-Inside s.show_x s.show_y s1 map))
    ]
