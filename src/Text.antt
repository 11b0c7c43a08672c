-- ===== src/Text.antt =====
-- text_to_image of mp2/text.c, which draws the status bar. A string is the list of its characters;
-- the glyphs of font_data are a parameter, by character and row. A store outside of the buffer of
-- 5760 bytes is none.
pub mod Inside
use ece_391_fall.Prelude.{
  ℕ, zero, suc, ◌+◌, ◌-◌, ◌*◌, ◌/◌, ◌%◌, ◌^◌, Option, none, some, List, [], ◌∷◌, Bool, not, ltb,
  ◌==◌, if◌then◌else◌, length, update, bit_and, sub32,
}

abbrev pub bar_size : ℕ
bar_size = 5760

-- The parameters of the loops over rows and columns: the glyphs, the plane offset, the address of
-- the character's first column and the character.
module _ (font_data : ℕ → ℕ → ℕ) (offset : ℕ) where
  -- `buffer[…]` for a pixel of the character that starts at `x`.
  abbrev pub bar_index : ℕ → ℕ → ℕ → ℕ
  bar_index x row col =
      (x + sub32 offset col % 4 * 1440 + row * 80 + (if ltb 3 col then 1 else 0)) % 2 ^ 32

  unfoldable pub draw_pixel : ℕ → ℕ → ℕ → ℕ → (ℕ → ℕ) → Option (ℕ → ℕ)
  draw_pixel x c row col buffer =
      if not (bit_and (font_data c (row - 1)) (0x80 / 2 ^ col) == 0)
      then (if ltb (bar_index x row col) bar_size
          then some (update buffer (bar_index x row col) 0)
          else none)
      else some buffer

  -- The loop over `col` with k rounds left, and the one over `row`.
  unfoldable pub draw_cols : ℕ → ℕ → ℕ → ℕ → ℕ → (ℕ → ℕ) → Option (ℕ → ℕ)
  unfolding draw_pixel
  draw_cols zero x c row col buffer = some buffer
  draw_cols (suc k) x c row col buffer = elim (draw_pixel x c row col buffer) [
    | none ↦ none
    | some buffer' ↦ draw_cols k x c row (col + 1) buffer'
  ]

  unfoldable pub draw_glyph_rows : ℕ → ℕ → ℕ → ℕ → (ℕ → ℕ) → Option (ℕ → ℕ)
  unfolding draw_cols
  draw_glyph_rows zero x c row buffer = some buffer
  draw_glyph_rows (suc k) x c row buffer = elim (draw_cols 8 x c row 0 buffer) [
    | none ↦ none
    | some buffer' ↦ draw_glyph_rows k x c (row + 1) buffer'
  ]

  -- The loop over the characters, from the one with index `s` on.
  unfoldable pub draw_text : List ℕ → ℕ → ℕ → (ℕ → ℕ) → Option (ℕ → ℕ)
  unfolding draw_glyph_rows
  draw_text [] start s buffer = some buffer
  draw_text (c ∷ cs) start s buffer =
      elim (draw_glyph_rows 16 ((2 * s + start) % 2 ^ 32) c 1 buffer) [
        | none ↦ none
        | some buffer' ↦ draw_text cs start (s + 1) buffer'
      ]

  -- The message in the middle, or the room on the left and the command on the right.
  unfoldable pub text_to_image : (cmd place msg : List ℕ) → Option (ℕ → ℕ)
  unfolding draw_text
  text_to_image cmd place (m ∷ ms) =
      draw_text (m ∷ ms) (sub32 80 (2 * length (m ∷ ms)) / 2) 0 (λ i. 3)
  text_to_image cmd place [] = elim (draw_text place 0 0 (λ i. 3)) [
    | none ↦ none
    | some buffer ↦ draw_text cmd (2 * (sub32 79 (length cmd) + 1)) 0 buffer
  ]
