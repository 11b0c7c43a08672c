-- ===== src/Text/Inside.antt =====
-- text_to_image of mp2/text.c stays inside its buffer.
use ece_391_fall.Prelude.{
  ℕ, zero, suc, ◌+◌, ◌-◌, ◌*◌, ◌/◌, ◌%◌, ◌^◌, ◌≤◌, ◌<◌, ◌≡◌, ◌⊎◌, inl, inr, refl, arith, Option,
  some, List, [], ◌∷◌, Bool-cases, not, ◌==◌, bit_and, length, lt→ltb, sub32,
}
use ece_391_fall.Text.{
  bar_size, bar_index, draw_pixel, draw_cols, draw_glyph_rows, draw_text, text_to_image,
}

-- The bar is drawn, and each of its bytes is the background's colour or the text's.
abbrev pub Drawn : Option (ℕ → ℕ) → Type 0
Drawn p = (buffer : ℕ → ℕ) × (p ≡ some buffer) × ((i : ℕ) → (buffer i ≡ 0) ⊎ (buffer i ≡ 3))

abbrev Colours : (ℕ → ℕ) → Type 0
Colours buffer = (i : ℕ) → (buffer i ≡ 0) ⊎ (buffer i ≡ 3)

module _ (font_data : ℕ → ℕ → ℕ) (offset : ℕ) where
  bar_index_small :
      (x row col : ℕ) → x ≤ 158 → row ≤ 16 → bar_index font_data offset x row col < bar_size
  bar_index_small x row col hx hr = ground (arith, hx, hr)

  draw_pixel-Drawn :
      (x c row col : ℕ) (buffer : ℕ → ℕ)
      → x ≤ 158
      → row ≤ 16
      → Colours buffer
      → Drawn (draw_pixel font_data offset x c row col buffer)
  unfolding draw_pixel
  draw_pixel-Drawn x c row col buffer hx hr ok =
      elim (Bool-cases (not (bit_and (font_data c (row - 1)) (0x80 / 2 ^ col) == 0))) [
        | inl e ↦
            rw (e, lt→ltb _ _ (bar_index_small x row col hx hr))
              (_, refl, λ i. ground (arith, ok i))
        | inr e ↦ rw e (buffer, refl, ok)
      ]

  draw_cols-Drawn :
      (k x c row col : ℕ) (buffer : ℕ → ℕ)
      → x ≤ 158
      → row ≤ 16
      → Colours buffer
      → Drawn (draw_cols font_data offset k x c row col buffer)
  unfolding draw_cols
  draw_cols-Drawn zero x c row col buffer hx hr ok = (buffer, refl, ok)
  draw_cols-Drawn (suc k) x c row col buffer hx hr ok =
      let (buffer', e, ok') = draw_pixel-Drawn x c row col buffer hx hr ok in
      rw (e, draw_cols) (draw_cols-Drawn k x c row (col + 1) buffer' hx hr ok')

  draw_glyph_rows-Drawn :
      (k x c row : ℕ) (buffer : ℕ → ℕ)
      → x ≤ 158
      → row + k ≤ 17
      → Colours buffer
      → Drawn (draw_glyph_rows font_data offset k x c row buffer)
  unfolding draw_glyph_rows
  draw_glyph_rows-Drawn zero x c row buffer hx hr ok = (buffer, refl, ok)
  draw_glyph_rows-Drawn (suc k) x c row buffer hx hr ok =
      let (buffer', e, ok') = draw_cols-Drawn 8 x c row 0 buffer hx (omega (arith, hr)) ok in
      rw (e, draw_glyph_rows)
        (draw_glyph_rows-Drawn k x c (row + 1) buffer' hx (omega (arith, hr)) ok')

  -- Each character starts at most at column 158 of the two rows of addresses that a row spans.
  draw_text-Drawn :
      (cs : List ℕ) (start s : ℕ) (buffer : ℕ → ℕ)
      → start + 2 * (s + length cs) ≤ 160
      → Colours buffer
      → Drawn (draw_text font_data offset cs start s buffer)
  unfolding draw_text
  draw_text-Drawn [] start s buffer fits ok = (buffer, refl, ok)
  draw_text-Drawn (c ∷ cs) start s buffer fits ok =
      let (buffer', e, ok') =
        draw_glyph_rows-Drawn 16 ((2 * s + start) % 2 ^ 32) c 1 buffer (omega (arith, fits))
          (omega arith) ok in
      rw (e, draw_text) (draw_text-Drawn cs start (s + 1) buffer' (omega (arith, fits)) ok')

  -- With a message and a room's name of at most 40 characters and a command of at most 20,
  -- text_to_image stores nothing outside of its buffer, and each byte of the bar has one of the
  -- two colours.
  pub text_to_image-Drawn :
      (cmd place msg : List ℕ)
      → length msg ≤ 40
      → length place ≤ 40
      → length cmd ≤ 20
      → Drawn (text_to_image font_data offset cmd place msg)
  unfolding text_to_image
  text_to_image-Drawn cmd place (m ∷ ms) hm hp hc =
      draw_text-Drawn (m ∷ ms) (sub32 80 (2 * length (m ∷ ms)) / 2) 0 (λ i. 3) (omega (arith, hm))
        (λ i. inr refl)
  text_to_image-Drawn cmd place [] hm hp hc =
      let (buffer, e, ok) =
        draw_text-Drawn place 0 0 (λ i. 3) (omega (arith, hp)) (λ i. inr refl) in
      rw (e, text_to_image)
        (draw_text-Drawn cmd (2 * (sub32 79 (length cmd) + 1)) 0 buffer (omega (arith, hc)) ok)
