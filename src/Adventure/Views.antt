-- ===== src/Adventure/Views.antt =====
-- The view over a room's photo, as mp2/adventure.c moves it.
use ece_391_fall.Prelude.{ℕ, ◌+◌, ◌-◌, ◌≤◌, ◌<◌, ◌^◌, ◌≡◌, arith, add32, sub32}
use ece_391_fall.Adventure.{
  Game, step_back, step_on, move_photo_down, move_photo_left, move_photo_right, move_photo_up,
}

-- The window of 320 by 182 pixels is on the photo of room r.
abbrev pub OnPhoto : ℕ → Game → Type 0
OnPhoto r g =
    (g.map_x + 320 ≤ (g.world.photo_size (g.world.view r)).0)
    × (g.map_y + 182 ≤ (g.world.photo_size (g.world.view r)).1)

back : (speed map : ℕ) → map < 2 ^ 16 → sub32 map (step_back speed map) ≤ map
back speed map small = ground (arith, small)

on_lem :
    (speed map size dim : ℕ)
    → size < 2 ^ 16
    → map + dim ≤ size
    → speed < 2 ^ 16
    → add32 map (step_on speed (sub32 (sub32 size dim) map)) + dim ≤ size
on_lem speed map size dim small h slow =
    let left : sub32 (sub32 size dim) map ≡ size - dim - map = omega (arith, small, h) in
    rw left (ground (arith, small, h, slow))

-- On a photo of less than 2 ^ 16 pixels each way that covers the window, a motion in any direction
-- and at any speed below 2 ^ 16 leaves the window on the photo.
pub move_photo-OnPhoto :
    (r : ℕ) (g : Game)
    → (g.world.photo_size (g.world.view r)).0 < 2 ^ 16
    → (g.world.photo_size (g.world.view r)).1 < 2 ^ 16
    → g.x_speed < 2 ^ 16
    → g.y_speed < 2 ^ 16
    → OnPhoto r g
    → OnPhoto r (move_photo_down g)
      × OnPhoto r (move_photo_up r g)
      × OnPhoto r (move_photo_right g)
      × OnPhoto r (move_photo_left r g)
unfolding move_photo_down move_photo_up move_photo_right move_photo_left
move_photo-OnPhoto r g wide high xs ys (on_x, on_y) = (
  (on_x, omega (arith, back g.y_speed g.map_y (omega (arith, on_y, high)), on_y)),
  (on_x, on_lem g.y_speed g.map_y _ 182 high on_y ys),
  (omega (arith, back g.x_speed g.map_x (omega (arith, on_x, wide)), on_x), on_y),
  (on_lem g.x_speed g.map_x _ 320 wide on_x xs, on_y),
)
