-- ===== src/TerminalDriver/ReadLine.antt =====
-- What terminal_read places in the caller's buffer.
use ece_391_fall.Prelude.{
  ℕ, zero, suc, ◌+◌, ◌-◌, min, ◌<◌, ◌≤◌, ◌≡◌, ◌≢◌, refl, ap, ◌∙◌, arith, ◌&&◌, none, some, ltb, leb,
  ◌==◌, if◌then◌else◌, Bool-cases, inl, inr, true, false,
}
use ece_391_fall.Memory.{Mem, store}
use ece_391_fall.TerminalDriver.{copy_line, pad_line, read_line}

-- The first new line of a line is at index `j`.
abbrev pub EndsAt : (ℕ → ℕ) → ℕ → Type 0
EndsAt line j = (line j ≡ b'\n') × ((i : ℕ) → i < j → line i ≢ b'\n')

-- The memory with the characters of the line from `ct` up to `n` at their places.
abbrev pub placed : (ℕ → ℕ) → ℕ → ℕ → ℕ → Mem → Mem
placed line buf ct n m a = if leb (buf + ct) a && ltb a (buf + n) then line (a - buf) else m a

module _ (line : ℕ → ℕ) (buf : ℕ) where
  copy_line-ends :
      (k ct j : ℕ) (m : Mem) (a : ℕ)
      → ct ≤ j
      → j < 128
      → j < ct + k
      → EndsAt line j
      → let out = copy_line k line buf m ct in
        (out.0 ≡ j + 1) × (out.2 ≡ some j) × (out.1 a ≡ placed line buf ct (j + 1) m a)
  unfolding copy_line
  copy_line-ends zero ct j m a h h1 h2 e = absurd (omega arith)
  copy_line-ends (suc k) ct j m a h h1 h2 e = elim (Bool-cases (ct == j)) [
    | inl here ↦
        let at : ct ≡ j = ground arith in
        let ended : (line ct == b'\n') ≡ true = ground (arith, e.0, ap line at) in
        let inside : leb 128 ct ≡ false = ground arith in
        rw (inside, ended, copy_line) (omega (arith, at), ap (λ x. some x) at, ground (arith, at))
    | inr later ↦
        let on : (line ct == b'\n') ≡ false = ground (arith, e.1 ct (ground arith)) in
        let inside : leb 128 ct ≡ false = ground arith in
        let (ret, last, mem) =
          copy_line-ends k (ct + 1) j (store m (buf + ct) (line ct)) a (ground arith) h1
            (omega arith) e in
        rw (inside, on, copy_line) (ret, last, ground (arith, mem))
  ]

  copy_line-full :
      (k ct : ℕ) (m : Mem) (a : ℕ)
      → ct ≤ 128
      → ((i : ℕ) → i < ct + k → i < 128 → line i ≢ b'\n')
      → let out = copy_line k line buf m ct in
        (out.0 ≡ min (ct + k) 128)
        × (out.2 ≡ none)
        × (out.1 a ≡ placed line buf ct (min (ct + k) 128) m a)
  unfolding copy_line
  copy_line-full zero ct m a h e = (omega arith, refl, ground arith)
  copy_line-full (suc k) ct m a h e = elim (Bool-cases (leb 128 ct)) [
    | inl over ↦ rw (over, copy_line) (ground arith, refl, ground arith)
    | inr inside ↦
        let on : (line ct == b'\n') ≡ false = ground (arith, e ct (omega arith) (ground arith)) in
        let (ret, last, mem) =
          copy_line-full k (ct + 1) (store m (buf + ct) (line ct)) a (ground arith)
            (λ i hi. e i (omega arith)) in
        rw (inside, on, copy_line) (omega (arith, ret), last, ground (arith, mem))
  ]

pad_line_lem :
    (k buf ct : ℕ) (m : Mem) (a : ℕ)
    → pad_line k buf m ct a ≡ (if ltb 0 k && (a == buf + ct) then 0 else m a)
unfolding pad_line
pad_line_lem zero buf ct m a = ground arith
pad_line_lem (suc k) buf ct m a = ground (arith, pad_line_lem k buf ct (store m (buf + ct) 0) a)

-- A line that ends within the bytes asked for is copied up to its new line, which is counted in the
-- result; but where more bytes were asked for, the padding loop has put a 0 in place of the new
-- line, and the bytes behind it are not padded.
pub read_line-ends :
    (line : ℕ → ℕ) (buf nbytes j : ℕ) (m : Mem) (a : ℕ)
    → j < 128
    → j < nbytes
    → EndsAt line j
    → ((read_line line buf nbytes m).0 ≡ j + 1)
      × ((read_line line buf nbytes m).1 a
          ≡ (if ltb (j + 1) nbytes && (a == buf + j) then 0 else placed line buf 0 (j + 1) m a))
unfolding read_line
read_line-ends line buf nbytes j m a h h' e =
    let (ret, last, mem) = copy_line-ends line buf nbytes 0 j m a (omega arith) h (omega arith) e in
    rw (last, read_line)
      (
        ret,
        pad_line_lem (nbytes - (j + 1)) buf j (copy_line nbytes line buf m 0).1 a
            ∙ ground (arith, mem),
      )

-- A line without a new line in the bytes asked for is copied, 128 bytes at most.
pub read_line-full :
    (line : ℕ → ℕ) (buf nbytes : ℕ) (m : Mem) (a : ℕ)
    → ((i : ℕ) → i < nbytes → i < 128 → line i ≢ b'\n')
    → ((read_line line buf nbytes m).0 ≡ min nbytes 128)
      × ((read_line line buf nbytes m).1 a ≡ placed line buf 0 (min nbytes 128) m a)
unfolding read_line
read_line-full line buf nbytes m a e =
    let (ret, last, mem) =
      copy_line-full line buf nbytes 0 m a (omega arith) (λ i hi. e i (omega arith)) in
    rw (last, read_line) (ground (arith, ret), ground (arith, mem))
