-- ===== src/ModeX/Copies.antt =====
-- The copy loops of set_view_window of mp2/modex.c, in both directions.
use ece_391_fall.Prelude.{
  ℕ, zero, suc, ◌+◌, ◌-◌, ◌^◌, ◌≤◌, ◌<◌, ◌≡◌, ap, ◌∙◌, arith, ◌&&◌, Bool-cases, inl, inr, ltb, leb,
  ◌==◌, if◌then◌else◌, add32, update,
}
use ece_391_fall.ModeX.{copy_up, copy_down}

-- The `k` bytes at `start` moved to `target`, from byte `i` on.
abbrev moved : ℕ → ℕ → ℕ → ℕ → (ℕ → ℕ) → ℕ → ℕ
moved k target start i b a =
    if leb (target + i) a && ltb a (target + i + k) then b (start + (a - target)) else b a

copy_up-moved :
    (k target start i a : ℕ) (b : ℕ → ℕ)
    → target ≤ start
    → start + i + k < 2 ^ 32
    → copy_up k target start i b a ≡ moved k target start i b a
unfolding copy_up
copy_up-moved zero target start i a b h h' = ground arith
copy_up-moved (suc k) target start i a b h h' =
    let to : add32 target i ≡ target + i = omega (arith, h, h') in
    let from : add32 start i ≡ start + i = omega (arith, h') in
    rw (to, from)
      (copy_up-moved k target start (i + 1) a (update b (target + i) (b (start + i))) h
          (omega (arith, h'))
        ∙ elim (Bool-cases (a == target + i)) [
          | inl e ↦ ground (arith, e, h, ap b {x = start + i} {y = start + (a - target)})
          | inr e ↦ ground (arith, e, h)
        ])

copy_down-moved :
    (k target start a : ℕ) (b : ℕ → ℕ)
    → start < target
    → target + k < 2 ^ 32
    → copy_down k target start b a ≡ moved k target start 0 b a
unfolding copy_down
copy_down-moved zero target start a b h h' = ground arith
copy_down-moved (suc k) target start a b h h' =
    let to : add32 target k ≡ target + k = omega (arith, h') in
    let from : add32 start k ≡ start + k = omega (arith, h, h') in
    rw (to, from)
      (copy_down-moved k target start a (update b (target + k) (b (start + k))) h
          (omega (arith, h'))
        ∙ elim (Bool-cases (a == target + k)) [
          | inl e ↦ ground (arith, e, h, ap b {x = start + k} {y = start + (a - target)})
          | inr e ↦ ground (arith, e, h)
        ])

moved_byte :
    (k target start d : ℕ) (b : ℕ → ℕ)
    → d < k
    → moved k target start 0 b (target + d) ≡ b (start + d)
moved_byte k target start d b h =
    ground (arith, h, ap b {x = start + (target + d - target)} {y = start + d})

-- Each byte of the copy, in whichever direction.
pub copy_lem :
    (k target start d : ℕ) (b : ℕ → ℕ)
    → d < k
    → start + k < 2 ^ 32
    → target + k < 2 ^ 32
    → (if ltb start target then copy_down k target start b else copy_up k target start 0 b)
        (target + d)
      ≡ b (start + d)
copy_lem k target start d b h hs ht = elim (Bool-cases (ltb start target)) [
  | inl e ↦ rw e (
      copy_down-moved k target start (target + d) b (ground (arith, e)) ht
      ∙ moved_byte k target start d b h)
  | inr e ↦ rw e (
      copy_up-moved k target start 0 (target + d) b (ground (arith, e)) (omega (arith, hs))
      ∙ moved_byte k target start d b h)
]
