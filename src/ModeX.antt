-- ===== src/ModeX.antt =====
-- The scrolling view of mp2/modex.c: the build buffer with its four planes, and the video memory of mode X.
-- A pointer into the build buffer is the 32-bit offset from `build`; the two functions that
-- set_mode_X is given are fields, and what they leave in the line's buffer is their result.
pub mod Show
pub mod Cells
pub mod Rows
pub mod Columns
pub mod Window
pub mod Copies
pub mod Moves
use ece_391_fall.Prelude.{
  ℕ, zero, suc, ◌+◌, ◌-◌, ◌*◌, ◌/◌, ◌%◌, ◌^◌, List, [], ◌∷◌, Bool, ◌&&◌, ◌||◌, ltb, leb, ◌==◌,
  if◌then◌else◌, slt, sle, add32, sub32, minus_one, update,
}

abbrev pub scroll_x_dim : ℕ
scroll_x_dim = 320

abbrev pub scroll_y_dim : ℕ
scroll_y_dim = 182

abbrev pub scroll_x_width : ℕ
scroll_x_width = 80

abbrev pub scroll_size : ℕ
scroll_size = 80 * 182

abbrev pub build_buf_size : ℕ
build_buf_size = scroll_size * 4 + 1 + 20000

abbrev pub build_base_init : ℕ
build_base_init = 10000

abbrev pub mem_fence_width : ℕ
mem_fence_width = 256

-- `mem_image` by plane and offset, and the write mask with the bits that choose the planes.
pub record ModeX : Type 0 where
  pub build : ℕ → ℕ
  pub img3_off : ℕ
  pub img3 : ℕ
  pub show_x : ℕ
  pub show_y : ℕ
  pub target_img : ℕ
  pub horiz_line_fn : ℕ → ℕ → ℕ → ℕ
  pub vert_line_fn : ℕ → ℕ → ℕ → ℕ
  pub mem_image : ℕ → ℕ → ℕ
  pub write_mask : ℕ
  pub ports : List (ℕ × ℕ)

-- `x >> 2` of an int.
abbrev pub sar2 : ℕ → ℕ
sar2 x = if slt x 0 then x / 4 + 3 * 2 ^ 30 else x / 4

-- `img3 + (x >> 2) + y * SCROLL_X_WIDTH`.
abbrev pub pixel_addr : ModeX → ℕ → ℕ → ℕ
pixel_addr s x y = add32 (add32 s.img3 (sar2 x)) ((y * scroll_x_width) % 2 ^ 32)

abbrev pub plane_of : ℕ → ℕ
plane_of x = 3 - x % 4

-- The loop of draw_vert_line from pixel `i` with `k` left.
pub put_column : ℕ → ℕ → ℕ → (ℕ → ℕ) → ℕ → (ℕ → ℕ) → ℕ → ℕ
put_column zero addr p_off buf i b = b
put_column (suc k) addr p_off buf i b =
    put_column k (add32 addr scroll_x_width) p_off buf (i + 1)
      (update b (add32 addr (p_off * scroll_size)) (buf i))

-- The loop of draw_horiz_line.
pub put_row : ℕ → ℕ → ℕ → (ℕ → ℕ) → ℕ → (ℕ → ℕ) → ℕ → ℕ
put_row zero addr p_off buf i b = b
put_row (suc k) addr p_off buf i b =
    put_row k (if p_off == 0 then add32 addr 1 else addr) (if p_off == 0 then 3 else p_off - 1) buf
      (i + 1) (update b (add32 addr (p_off * scroll_size)) (buf i))

unfoldable pub draw_vert_line : ℕ → ModeX → ℕ × ModeX
draw_vert_line x s =
    if slt x 0 || sle scroll_x_dim x
    then (minus_one, s)
    else let x' = add32 x s.show_x in
      let buf = s.vert_line_fn x' s.show_y in
      (
        0,
        record s {
          build = put_column scroll_y_dim (pixel_addr s x' s.show_y) (plane_of x') buf 0 s.build;
        },
      )

unfoldable pub draw_horiz_line : ℕ → ModeX → ℕ × ModeX
draw_horiz_line y s =
    if slt y 0 || sle scroll_y_dim y
    then (minus_one, s)
    else let y' = add32 y s.show_y in
      let buf = s.horiz_line_fn s.show_x y' in
      (
        0,
        record s {
          build = put_row scroll_x_dim (pixel_addr s s.show_x y') (plane_of s.show_x) buf 0 s.build;
        },
      )

-- SET_WRITE_MASK.
abbrev pub set_write_mask : ℕ → ModeX → ModeX
set_write_mask mask s = record s { write_mask = mask; ports = (mask + 2, 0x3C4) ∷ s.ports }

abbrev pub outw : ℕ → ℕ → ModeX → ModeX
outw port v s = record s { ports = (v, port) ∷ s.ports }

-- A byte stored into video memory goes to the planes of the mask.
abbrev pub store_planes : ℕ → ℕ → ℕ → (ℕ → ℕ → ℕ) → ℕ → ℕ → ℕ
store_planes mask edi byte v p a = if (mask / 2 ^ (p + 8)) % 2 == 1 && a == edi then byte else v p a

-- `rep movsb` from the build buffer to video memory.
pub movsb_planes : ℕ → ℕ → (ℕ → ℕ) → ℕ → ℕ → (ℕ → ℕ → ℕ) → ℕ → ℕ → ℕ
movsb_planes zero mask build esi edi v = v
movsb_planes (suc ecx) mask build esi edi v =
    movsb_planes ecx mask build (add32 esi 1) (edi + 1) (store_planes mask edi (build esi) v)

unfoldable pub copy_image : ℕ → ℕ → ModeX → ModeX
copy_image img scr_addr s = record s {
  mem_image = movsb_planes (16000 - 1440) s.write_mask s.build img scr_addr s.mem_image;
}

-- `target_img ^= 0x4000` of an unsigned short.
abbrev pub other_target : ℕ → ℕ
other_target t = if t / 0x4000 % 2 == 1 then t - 0x4000 else t + 0x4000

-- The loop of show_screen from plane `i` with `k` left.
unfoldable pub show_planes : ℕ → ℕ → ℕ → ℕ → ModeX → ModeX
show_planes zero i addr p_off s = s
show_planes (suc k) i addr p_off s =
    let img = add32 addr ((p_off + 4 - i) % 4 * scroll_size + (if ltb p_off i then 1 else 0)) in
    show_planes k (i + 1) addr p_off (copy_image img s.target_img (set_write_mask (2 ^ (i + 8)) s))

unfoldable pub show_screen : ModeX → ModeX
show_screen s =
    let s1 = record s { target_img = other_target s.target_img } in
    let s2 = show_planes 4 0 (pixel_addr s1 s1.show_x s1.show_y) (plane_of s1.show_x) s1 in
    let t = s2.target_img in
    outw 0x3D4 (t % 2 ^ 8 * 2 ^ 8 + 0x0D) (outw 0x3D4 (t / 2 ^ 8 * 2 ^ 8 + 0x0C) s2)

pub clear_screens : ModeX → ModeX
clear_screens s =
    let s1 = set_write_mask 0x0F00 s in
    record s1 {
      mem_image = λ p a.
          if (s1.write_mask / 2 ^ (p + 8)) % 2 == 1 && ltb a 65536 then 0 else s1.mem_image p a;
    }

-- The two loops of set_view_window, which copy `k` bytes, upwards from byte `i` or downwards.
pub copy_up : ℕ → ℕ → ℕ → ℕ → (ℕ → ℕ) → ℕ → ℕ
copy_up zero target start i b = b
copy_up (suc k) target start i b =
    copy_up k target start (i + 1) (update b (add32 target i) (b (add32 start i)))

pub copy_down : ℕ → ℕ → ℕ → (ℕ → ℕ) → ℕ → ℕ
copy_down zero target start b = b
copy_down (suc i) target start b =
    copy_down i target start (update b (add32 target i) (b (add32 start i)))

-- The window fits into the build buffer where it is.
abbrev pub fits : ℕ → ℕ → ℕ → Bool
fits off x y =
    sle 0 (add32 (add32 off (sar2 x)) ((y * scroll_x_width) % 2 ^ 32))
    && slt
        (add32 (add32 (add32 off (3 * scroll_size)) (sar2 (add32 x (scroll_x_dim - 1))))
          ((add32 y (scroll_y_dim - 1) * scroll_x_width) % 2 ^ 32))
        build_buf_size

-- The window goes to the middle of the build buffer.
abbrev pub rebase : ModeX → ModeX
rebase s =
    let off =
      sub32 (sub32 build_base_init (sar2 s.show_x)) ((s.show_y * scroll_x_width) % 2 ^ 32) in
    record s { img3_off = off; img3 = add32 off mem_fence_width }

-- set_view_window where the old window and the new one overlap.
unfoldable pub move_window : ℕ → ℕ → ModeX → ModeX
move_window old_x old_y s =
    let start_x = if slt old_x s.show_x then s.show_x else old_x in
    let end_x = add32 (if slt old_x s.show_x then old_x else s.show_x) (scroll_x_dim - 1) in
    let start_y = if slt old_y s.show_y then s.show_y else old_y in
    let end_y = add32 (if slt old_y s.show_y then old_y else s.show_y) (scroll_y_dim - 1) in
    let start_off = add32 (sar2 start_x) ((start_y * scroll_x_width) % 2 ^ 32) in
    let start_addr = add32 s.img3 start_off in
    let last = add32 (sar2 end_x) ((end_y * scroll_x_width) % 2 ^ 32) in
    let length = add32 (sub32 (add32 last 1) start_off) (3 * scroll_size) in
    let s' = rebase s in
    let target_addr = add32 s'.img3 start_off in
    record s' {
      build =
          if ltb start_addr target_addr
          then copy_down length target_addr start_addr s.build
          else copy_up length target_addr start_addr 0 s.build;
    }

unfoldable pub set_view_window : ℕ → ℕ → ModeX → ModeX
unfolding move_window
set_view_window scr_x scr_y s =
    let old_x = s.show_x in
    let old_y = s.show_y in
    let s1 = record s { show_x = scr_x; show_y = scr_y } in
    if fits s.img3_off scr_x scr_y
    then s1
    else if sle scr_x (sub32 old_x scroll_x_dim)
        || sle (add32 old_x scroll_x_dim) scr_x
        || sle scr_y (sub32 old_y scroll_y_dim)
        || sle (add32 old_y scroll_y_dim) scr_y
    then rebase s1
    else move_window old_x old_y s1
