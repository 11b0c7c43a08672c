-- ===== src/ModeX/Cells.antt =====
-- The bytes of the build buffer of mp2/modex.c that the pixels of the view have.
use ece_391_fall.Prelude.{
  ℕ, zero, suc, ◌+◌, ◌-◌, ◌*◌, ◌/◌, ◌%◌, ◌^◌, ◌≤◌, ◌<◌, ◌≡◌, ◌≢◌, refl, sym, ap, ◌∙◌, arith,
  Bool-cases, inl, inr, ◌==◌, ==_iff, if◌then◌else◌, add32, update, update-same, update-other,
}
use ece_391_fall.ModeX.{ModeX, scroll_size, scroll_x_width, put_row, put_column}
use ece_391_fall.ModeX.Show.{cell, cell_lem, IsWindow}

-- Different pixels of the window have different cells.
pub cells_apart :
    (s : ModeX) (i j k l : ℕ)
    → IsWindow s
    → i < 320
    → j < 182
    → k < 320
    → l < 182
    → cell s (s.show_x + i) (s.show_y + j) ≡ cell s (s.show_x + k) (s.show_y + l)
    → (i ≡ k) × (j ≡ l)
unfolding IsWindow
cells_apart s i j k l win hi hj hk hl e =
    let e' =
      sym (
        cell_lem s (s.show_x + i) (s.show_y + j) (omega (arith, win.0, hi))
          (omega (arith, win.1, hj)))
      ∙ e
      ∙ cell_lem s (s.show_x + k) (s.show_y + l) (omega (arith, win.0, hk))
          (omega (arith, win.1, hl)) in
    (omega (arith, e', win, hi, hj, hk, hl), omega (arith, e', win, hi, hj, hk, hl))

-- Bytes `i` and on of a line, stored at the addresses `c` of its pixels.
pub place : ℕ → (ℕ → ℕ) → (ℕ → ℕ) → ℕ → (ℕ → ℕ) → ℕ → ℕ
place zero c buf i b = b
place (suc k) c buf i b = place k c buf (i + 1) (update b (c i) (buf i))

pub place-miss :
    (k i a : ℕ) (c buf b : ℕ → ℕ)
    → ((j : ℕ) → i ≤ j → j < i + k → c j ≢ a)
    → place k c buf i b a ≡ b a
unfolding place
place-miss zero i a c buf b h = refl
place-miss (suc k) i a c buf b h =
    place-miss k (i + 1) a c buf (update b (c i) (buf i))
      (λ j low high. h j (omega (arith, low)) (omega (arith, high)))
    ∙ update-other b (c i) (buf i) a (h i (omega arith) (omega arith))

pub place-hit :
    (k i j : ℕ) (c buf b : ℕ → ℕ)
    → i ≤ j
    → j < i + k
    → ((l : ℕ) → j < l → l < i + k → c l ≢ c j)
    → place k c buf i b (c j) ≡ buf j
unfolding place
place-hit zero i j c buf b low high apart = absurd (omega (arith, low, high))
place-hit (suc k) i j c buf b low high apart = elim (Bool-cases (i == j)) [
  | inl e ↦
      let same = (==_iff i j).0 e in
      place-miss k (i + 1) (c j) c buf (update b (c i) (buf i))
        (λ l from to. apart l (omega (arith, same, from)) (omega (arith, to)))
      ∙ ap (λ x. update b (c x) (buf x) (c j)) same
      ∙ update-same b (c j) (buf j)
  | inr e ↦
      place-hit k (i + 1) j c buf (update b (c i) (buf i)) (ground (arith, e, low))
        (omega (arith, high)) (λ l from to. apart l from (omega (arith, to)))
]

-- The loop of draw_horiz_line follows the cells of a row.
pub put_row-place :
    (k i base x : ℕ) (buf b : ℕ → ℕ)
    → put_row k ((base + (x + i) / 4) % 2 ^ 32) (3 - (x + i) % 4) buf i b
      ≡ place k (λ j. (base + (x + j) / 4 + (3 - (x + j) % 4) * scroll_size) % 2 ^ 32) buf i b
unfolding put_row place
put_row-place zero i base x buf b = refl
put_row-place (suc k) i base x buf b =
    let addr = (base + (x + i) / 4) % 2 ^ 32 in
    let p_off = 3 - (x + i) % 4 in
    let here : add32 addr (p_off * scroll_size)
        ≡ (base + (x + i) / 4 + p_off * scroll_size) % 2 ^ 32 =
      omega arith in
    let next_addr : (if p_off == 0 then add32 addr 1 else addr)
        ≡ (base + (x + (i + 1)) / 4) % 2 ^ 32 =
      ground arith in
    let next_off : (if p_off == 0 then 3 else p_off - 1) ≡ 3 - (x + (i + 1)) % 4 = ground arith in
    rw (here, next_addr, next_off) (put_row-place k (i + 1) base x buf _)

pub put_column-place :
    (k i base p_off : ℕ) (buf b : ℕ → ℕ)
    → put_column k ((base + i * 80) % 2 ^ 32) p_off buf i b
      ≡ place k (λ j. (base + j * 80 + p_off * scroll_size) % 2 ^ 32) buf i b
unfolding put_column place
put_column-place zero i base p_off buf b = refl
put_column-place (suc k) i base p_off buf b =
    let addr = (base + i * 80) % 2 ^ 32 in
    let here : add32 addr (p_off * scroll_size) ≡ (base + i * 80 + p_off * scroll_size) % 2 ^ 32 =
      omega arith in
    let next : add32 addr scroll_x_width ≡ (base + (i + 1) * 80) % 2 ^ 32 = omega arith in
    rw (here, next) (put_column-place k (i + 1) base p_off buf _)
