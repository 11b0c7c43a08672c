-- ===== src/ModeX/Show.antt =====
-- What show_screen of mp2/modex.c puts on the display.
use ece_391_fall.Prelude.{
  ℕ, zero, suc, ◌+◌, ◌-◌, ◌*◌, ◌/◌, ◌%◌, ◌^◌, ◌≤◌, ◌<◌, ◌≡◌, refl, sym, ap, ◌∙◌, arith, Bool, true,
  false, ◌&&◌, Bool-cases, inl, inr, ltb, leb, subst, ◌==◌, ==_iff, holds_to, holds_to_lem,
  if◌then◌else◌, add32,
}
use ece_391_fall.ModeX.{
  ModeX, scroll_size, scroll_x_width, pixel_addr, plane_of, sar2, set_write_mask, store_planes,
  movsb_planes, copy_image, show_planes, show_screen, other_target,
}

-- The byte of the build buffer that holds pixel `(x, y)` of the map.
abbrev pub cell : ModeX → ℕ → ℕ → ℕ
cell s x y = add32 (pixel_addr s x y) (plane_of x * scroll_size)

-- The pixel of the display at column `i` and row `j` below the top.
abbrev pub displayed : ModeX → ℕ → ℕ → ℕ
displayed s i j = s.mem_image (i % 4) (s.target_img + j * scroll_x_width + i / 4)

-- The view window has coordinates of a map.
unfoldable pub IsWindow : ModeX → Type 0
IsWindow s = (s.show_x + 320 < 2 ^ 20) × (s.show_y + 182 < 2 ^ 20) × (s.img3 < 2 ^ 32)

-- A byte of the copy, by whether the plane is written.
copied_byte :
    (on : Bool) (n esi edi a old : ℕ) (build : ℕ → ℕ)
    → esi < 2 ^ 32
    → (if on && leb (edi + 1) a && ltb a (edi + 1 + n)
        then build ((add32 esi 1 + (a - (edi + 1))) % 2 ^ 32)
        else if on && a == edi
        then build esi
        else old)
      ≡ (if on && leb edi a && ltb a (edi + suc n) then build ((esi + (a - edi)) % 2 ^ 32) else old)
copied_byte false n esi edi a old build h = refl
copied_byte true n esi edi a old build h = elim (Bool-cases (a == edi)) [
  | inl e ↦ ground (arith, e, h, ap build {x = esi} {y = (esi + (a - edi)) % 2 ^ 32})
  | inr e ↦ ground (
    arith,
    e,
    h,
    ap build {x = (add32 esi 1 + (a - (edi + 1))) % 2 ^ 32} {y = (esi + (a - edi)) % 2 ^ 32},
  )
]

movsb_planes_lem :
    (n mask esi edi p a : ℕ) (build : ℕ → ℕ) (v : ℕ → ℕ → ℕ)
    → esi < 2 ^ 32
    → movsb_planes n mask build esi edi v p a ≡ (
        if (mask / 2 ^ (p + 8)) % 2 == 1 && leb edi a && ltb a (edi + n)
        then build ((esi + (a - edi)) % 2 ^ 32)
        else v p a)
unfolding movsb_planes
movsb_planes_lem zero mask esi edi p a build v h = ground arith
movsb_planes_lem (suc n) mask esi edi p a build v h =
    movsb_planes_lem n mask (add32 esi 1) (edi + 1) p a build (store_planes mask edi (build esi) v)
      (omega arith)
    ∙ copied_byte ((mask / 2 ^ (p + 8)) % 2 == 1) n esi edi a (v p a) build h

mask_table :
    holds_to 16 (λ n. (2 ^ (n / 4 + 8) / 2 ^ (n % 4 + 8)) % 2 == (if n / 4 == n % 4 then 1 else 0))
    ≡ true
unfolding holds_to
mask_table = refl

-- SET_WRITE_MASK chooses one plane.
mask_lem : (q p : ℕ) → q < 4 → p < 4 → (2 ^ (q + 8) / 2 ^ (p + 8)) % 2 ≡ (if q == p then 1 else 0)
mask_lem q p hq hp =
    let n : ℕ = q * 4 + p in
    let left : n / 4 ≡ q = omega (arith, hp) in
    let right : n % 4 ≡ p = omega (arith, hp) in
    subst (λ x. (2 ^ (x + 8) / 2 ^ (p + 8)) % 2 ≡ (if x == p then 1 else 0)) left
      (subst (λ y. (2 ^ (n / 4 + 8) / 2 ^ (y + 8)) % 2 ≡ (if n / 4 == y then 1 else 0)) right
        ((==_iff ((2 ^ (n / 4 + 8) / 2 ^ (n % 4 + 8)) % 2) (if n / 4 == n % 4 then 1 else 0)).0 (
          holds_to_lem 16
            (λ m. (2 ^ (m / 4 + 8) / 2 ^ (m % 4 + 8)) % 2 == (if m / 4 == m % 4 then 1 else 0)) n
            (omega (arith, hq, hp)) mask_table)))

module _ (img q p a : ℕ) (s : ModeX) (hq : q < 4) (hp : p < 4) where
  abbrev one_plane : ModeX
  one_plane = copy_image img s.target_img (set_write_mask (2 ^ (q + 8)) s)

  one_plane_lem :
      img < 2 ^ 32
      → one_plane.mem_image p a ≡ (
          if (if q == p then 1 else 0) == 1
            && leb s.target_img a
            && ltb a (s.target_img + scroll_size)
          then s.build ((img + (a - s.target_img)) % 2 ^ 32)
          else s.mem_image p a)
  unfolding copy_image
  one_plane_lem small =
      movsb_planes_lem (16000 - 1440) (2 ^ (q + 8)) img s.target_img p a s.build s.mem_image small
      ∙ rw (mask_lem q p hq hp) refl

  other_plane : img < 2 ^ 32 → (q == p) ≡ false → one_plane.mem_image p a ≡ s.mem_image p a
  other_plane small e = one_plane_lem small ∙ rw e refl

  own_plane :
      img < 2 ^ 32
      → (q == p) ≡ true
      → s.target_img ≤ a
      → a < s.target_img + scroll_size
      → one_plane.mem_image p a ≡ s.build ((img + (a - s.target_img)) % 2 ^ 32)
  own_plane small e low high = one_plane_lem small ∙ ground (arith, e, low, high)

-- Where plane `p` of the display comes from.
abbrev source : ℕ → ℕ → ℕ → ℕ
source addr p_off p =
    add32 addr ((p_off + 4 - p) % 4 * scroll_size + (if ltb p_off p then 1 else 0))

show_planes-earlier :
    (k i p_off addr p a : ℕ) (s : ModeX)
    → i + k ≤ 4
    → p < i
    → (show_planes k i addr p_off s).mem_image p a ≡ s.mem_image p a
unfolding show_planes
show_planes-earlier zero i p_off addr p a s h below = refl
show_planes-earlier (suc k) i p_off addr p a s h below =
    let img = source addr p_off i in
    show_planes-earlier k (i + 1) p_off addr p a _ (omega (arith, h)) (omega (arith, below))
    ∙ other_plane img i p a s (omega (arith, h)) (omega (arith, h, below)) (omega arith)
        (ground (arith, below))

show_planes-own :
    (k i p_off addr p a : ℕ) (s : ModeX)
    → i + k ≤ 4
    → i ≤ p
    → p < i + k
    → s.target_img ≤ a
    → a < s.target_img + scroll_size
    → (show_planes k i addr p_off s).mem_image p a
      ≡ s.build ((source addr p_off p + (a - s.target_img)) % 2 ^ 32)
unfolding show_planes copy_image
show_planes-own zero i p_off addr p a s h from to low high = absurd (omega (arith, from, to))
show_planes-own (suc k) i p_off addr p a s h from to low high =
    let img = source addr p_off i in
    let s' = copy_image img s.target_img (set_write_mask (2 ^ (i + 8)) s) in
    elim (Bool-cases (i == p)) [
      | inl e ↦
          let same = (==_iff i p).0 e in
          show_planes-earlier k (i + 1) p_off addr p a s' (omega (arith, h)) (omega (arith, same))
          ∙ own_plane img i p a s (omega (arith, h)) (omega (arith, h, to)) (omega arith) e low high
          ∙ ap (λ x. s.build ((source addr p_off x + (a - s.target_img)) % 2 ^ 32)) same
      | inr e ↦
          show_planes-own k (i + 1) p_off addr p a s' (omega (arith, h)) (ground (arith, from, e))
            (omega (arith, to)) low high
    ]

-- show_screen shows the other screen to the end.
show_target :
    (k i addr p_off : ℕ) (s : ModeX) → (show_planes k i addr p_off s).target_img ≡ s.target_img
unfolding show_planes copy_image
show_target zero i addr p_off s = refl
show_target (suc k) i addr p_off s = show_target k (i + 1) addr p_off _

pub sar2_lem : (x : ℕ) → x < 2 ^ 31 → sar2 x ≡ x / 4
sar2_lem x h = ground (arith, h)

-- The cell of a pixel with coordinates of a map.
pub cell_lem :
    (s : ModeX) (x y : ℕ)
    → x < 2 ^ 20
    → y < 2 ^ 20
    → cell s x y ≡ (s.img3 + x / 4 + y * 80 + (3 - x % 4) * scroll_size) % 2 ^ 32
cell_lem s x y hx hy = rw (sar2_lem x (omega (arith, hx))) (omega (arith, hx, hy))

same_plane : (x i : ℕ) → (3 - x % 4 + 4 - i % 4) % 4 ≡ 3 - (x + i) % 4
same_plane x i = omega arith

same_byte : (x i : ℕ) → x / 4 + i / 4 + (if ltb (3 - x % 4) (i % 4) then 1 else 0) ≡ (x + i) / 4
same_byte x i = ground arith

-- Where the byte of a displayed pixel comes from is the cell of the pixel on the map.
source-cell :
    (i j : ℕ) (s : ModeX)
    → i < 320
    → j < 182
    → IsWindow s
    → (source (pixel_addr s s.show_x s.show_y) (plane_of s.show_x) (i % 4)
          + (j * scroll_x_width + i / 4))
        % 2 ^ 32
      ≡ cell s (s.show_x + i) (s.show_y + j)
unfolding IsWindow
source-cell i j s hi hj win =
    let carry : ℕ = if ltb (3 - s.show_x % 4) (i % 4) then 1 else 0 in
    let byte : s.show_x / 4 + i / 4 + carry ≡ (s.show_x + i) / 4 = same_byte s.show_x i in
    rw (sar2_lem s.show_x (omega (arith, win.0)), same_plane s.show_x i)
      (omega (arith, byte, win, hi, hj))
    ∙ sym (
        cell_lem s (s.show_x + i) (s.show_y + j) (omega (arith, win.0, hi))
          (omega (arith, win.1, hj)))

-- show_screen displays at column `i` and row `j` the byte of the build buffer that holds pixel
-- `(show_x + i, show_y + j)` of the map, for every pixel of the window.
pub show_screen-cell :
    (i j : ℕ) (s : ModeX)
    → i < 320
    → j < 182
    → IsWindow s
    → displayed (show_screen s) i j ≡ s.build (cell s (s.show_x + i) (s.show_y + j))
unfolding show_screen
show_screen-cell i j s hi hj win =
    let s1 = record s { target_img = other_target s.target_img } in
    let addr = pixel_addr s s.show_x s.show_y in
    let p_off = plane_of s.show_x in
    let a = s1.target_img + j * scroll_x_width + i / 4 in
    ap (λ t. (show_planes 4 0 addr p_off s1).mem_image (i % 4) (t + j * scroll_x_width + i / 4))
      (show_target 4 0 addr p_off s1)
    ∙ show_planes-own 4 0 p_off addr (i % 4) a s1 (omega arith) (omega arith) (omega arith)
        (omega arith) (omega (arith, hi, hj))
    ∙ ap (λ x. s.build ((source addr p_off (i % 4) + x) % 2 ^ 32)) (omega arith)
    ∙ ap s.build (source-cell i j s hi hj win)
