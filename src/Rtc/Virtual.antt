-- ===== src/Rtc/Virtual.antt =====
-- The virtual interrupts: how often they come, and that a read ends.
use ece_391_fall.Prelude.{
  ℕ, zero, suc, ◌+◌, ◌-◌, ◌/◌, ◌%◌, ◌^◌, ◌<◌, ◌≡◌, inl, inr, refl, arith, none, some, ltb,
  minus_one, add32, ap, subst, sym, ◌∙◌, ◌==◌, if◌then◌else◌, update, Bool-cases, ==_iff,
}
use ece_391_fall.Prelude.{leb, ◌&&◌}
use native.Mathlib.Nat.{add-zero}
use ece_391_fall.Rtc.{Rtc, rtc_write, rtc_handler, mark_from, await, rtc_read}
use ece_391_fall.Rtc.Periods.{IsFreq-GoodPeriod}
use ece_391_fall.Rtc.Frequency.{IsFreq, rate_good, rate_bad}

-- The frequencies of the three terminals are good.
abbrev pub AllFreq : Rtc → Type 0
AllFreq r = (t : ℕ) → t < 3 → IsFreq (r.freq t)

-- The rounds of the physical clock between two virtual interrupts.
abbrev pub period : Rtc → ℕ → ℕ
period r t = 1024 / r.freq t

-- One round of the loop over the terminals.
abbrev mark : ℕ → Rtc → Rtc
mark i r =
    if r.rtc_counter % (1024 / r.freq i) == 0 then record r { intr = update r.intr i 1 } else r

abbrev Marks : ℕ → ℕ → Rtc → Rtc → ℕ → Type 0
Marks i k r r' t =
    (r'.intr t
      ≡ (if leb i t && ltb t (i + k) && r.rtc_counter % period r t == 0 then 1 else r.intr t))
    × (r'.rtc_counter ≡ r.rtc_counter)
    × (r'.freq ≡ r.freq)

mark-fields :
    (i : ℕ) (r : Rtc) → ((mark i r).rtc_counter ≡ r.rtc_counter) × ((mark i r).freq ≡ r.freq)
mark-fields i r = ground arith

mark_from-Marks : (k i t : ℕ) (r : Rtc) → Marks i k r (mark_from k i r) t
unfolding mark_from
mark_from-Marks zero i t r = (ground arith, refl, refl)
mark_from-Marks (suc k) i t r =
    let (intr, counter, freq) = mark_from-Marks k (i + 1) t (mark i r) in
    let (same_counter, same_freq) = mark-fields i r in
    (intr ∙ rw (same_counter, same_freq) (ground arith), counter ∙ same_counter, freq ∙ same_freq)

-- One interrupt counts on, and marks the terminals whose period divides the count.
pub rtc_handler_lem :
    (r : Rtc) (t : ℕ)
    → t < 3
    → ((rtc_handler r).intr t ≡ (if add32 r.rtc_counter 1 % period r t == 0 then 1 else r.intr t))
      × ((rtc_handler r).rtc_counter ≡ add32 r.rtc_counter 1)
      × ((rtc_handler r).freq ≡ r.freq)
unfolding rtc_handler
rtc_handler_lem r t h =
    let q : Rtc = record r { rtc_counter = add32 r.rtc_counter 1 } in
    let (intr, counter, freq) = mark_from-Marks 3 0 t q in (intr ∙ ground arith, counter, freq)

-- Whether the next interrupt of the physical clock is a virtual one of terminal `t`.
abbrev pub fires : Rtc → ℕ → ℕ
fires r t = (rtc_handler (record r { intr = λ _. 0 })).intr t

-- The virtual interrupts of terminal `t` among the next `n` of the physical clock.
pub virtual_count : ℕ → Rtc → ℕ → ℕ
virtual_count zero r t = 0
virtual_count (suc n) r t = fires r t + virtual_count n (rtc_handler r) t

-- `c` is the count without the wrap of the counter.
virtual_count-div :
    (n : ℕ) (r : Rtc) (t c : ℕ)
    → t < 3
    → IsFreq (r.freq t)
    → r.rtc_counter ≡ c % 2 ^ 32
    → virtual_count n r t + c / period r t ≡ (c + n) / period r t
unfolding virtual_count
virtual_count-div zero r t c ht good e = ground (arith, ap (λ x. x / period r t) (add-zero c))
virtual_count-div (suc n) r t c ht good e =
    let g = IsFreq-GoodPeriod (r.freq t) good in
    let d : ℕ = period r t in
    let (fired, _, _) = rtc_handler_lem (record r { intr = λ _. 0 }) t ht in
    let (_, counter, freq) = rtc_handler_lem r t ht in
    let next : (rtc_handler r).rtc_counter ≡ (c + 1) % 2 ^ 32 = omega (arith, counter, e) in
    let count : add32 r.rtc_counter 1 % d ≡ (c + 1) % d =
      ap (λ x. x % d) (omega (arith, e)) ∙ g.wraps (c + 1) in
    let rest : virtual_count n (rtc_handler r) t + (c + 1) / d ≡ (c + 1 + n) / d =
      subst
        (λ (f : ℕ → ℕ).
          virtual_count n (rtc_handler r) t + (c + 1) / (1024 / f t) ≡ (c + 1 + n) / (1024 / f t))
        freq
        (virtual_count-div n (rtc_handler r) t (c + 1) ht
          (subst (λ (f : ℕ → ℕ). IsFreq (f t)) (sym freq) good) next) in
    ground (arith, fired, count, g.step c, rest, ap (λ x. x / d) (shift c n))
  where
    shift : (a b : ℕ) → a + 1 + b ≡ a + suc b
    shift a b = omega arith

-- In any 1024 interrupts of the physical clock, which is a second, a terminal at a good frequency
-- gets exactly that many virtual interrupts, also where the counter wraps.
pub virtual_count-second :
    (r : Rtc) (t : ℕ)
    → t < 3
    → IsFreq (r.freq t)
    → r.rtc_counter < 2 ^ 32
    → virtual_count 1024 r t ≡ r.freq t
virtual_count-second r t ht good small =
    let c : ℕ = r.rtc_counter in
    omega (
      arith,
      virtual_count-div 1024 r t c ht good (omega arith),
      (IsFreq-GoodPeriod (r.freq t) good).second c,
    )

-- The rounds that are left until the flag of a terminal is up.
abbrev rounds_left : Rtc → ℕ → ℕ
rounds_left r t = if r.intr t == 0 then period r t - r.rtc_counter % period r t else 0

-- An interrupt brings the flag nearer.
rounds_left-falls :
    (r : Rtc) (t : ℕ)
    → t < 3
    → IsFreq (r.freq t)
    → r.intr t ≡ 0
    → rounds_left (rtc_handler r) t < rounds_left r t
rounds_left-falls r t ht good down =
    let g = IsFreq-GoodPeriod (r.freq t) good in
    let d : ℕ = period r t in
    let (intr, counter, freq) = rtc_handler_lem r t ht in
    let count : add32 r.rtc_counter 1 % d ≡ (r.rtc_counter + 1) % d = g.wraps (r.rtc_counter + 1) in
    let same : period (rtc_handler r) t ≡ d = ap (λ (f : ℕ → ℕ). 1024 / f t) freq in
    let same_count : (rtc_handler r).rtc_counter % d ≡ (r.rtc_counter + 1) % d =
      ap (λ x. x % d) counter ∙ count in
    rw same (
      ground
        (arith, intr, count, same_count, g.turn r.rtc_counter, g.positive, g.below r.rtc_counter))

await_returns :
    (fuel run : ℕ) (r : Rtc)
    → run < 3
    → IsFreq (r.freq run)
    → rounds_left r run < fuel
    → (r' : Rtc) × (await fuel run r ≡ some r') × (r'.freq ≡ r.freq)
unfolding await
await_returns zero run r h good lt = absurd (omega arith)
await_returns (suc fuel) run r h good lt = elim (Bool-cases (r.intr run == 0)) [
  | inr up ↦ (r, rw (up, await), refl)
  | inl down ↦
      let (_, _, freq) = rtc_handler_lem r run h in
      let falls = rounds_left-falls r run h good ((==_iff _ 0).0 down) in
      let (r', e, f) =
        await_returns fuel run (rtc_handler r) h
          (subst (λ (f : ℕ → ℕ). IsFreq (f run)) (sym freq) good) (omega (arith, falls)) in
      (r', rw (down, await) e, f ∙ freq)
]

-- A read returns 0 after at most one virtual period of clock interrupts, with the flag down again
-- and the frequencies as they were.
pub rtc_read_returns :
    (fuel run : ℕ) (r : Rtc)
    → run < 3
    → IsFreq (r.freq run)
    → period r run < fuel
    → (r' : Rtc) × (rtc_read fuel run r ≡ some (0, r')) × (r'.intr run ≡ 0) × (r'.freq ≡ r.freq)
unfolding rtc_read
rtc_read_returns fuel run r h good lt =
    let (r', e, f) = await_returns fuel run (record r { rtc_flag = 0 }) h good (ground arith) in
    (record r' { intr = update r'.intr run 0 }, rw (e, rtc_read), ground arith, f)

-- rtc_write accepts exactly the good frequencies, sets the running terminal's to it and no other,
-- and changes nothing else; what it refuses leaves the state alone.
pub rtc_write_lem :
    (f run : ℕ) (r : Rtc)
    → (IsFreq f → rtc_write (some f) run r ≡ (0, record r { freq = update r.freq run f }))
      × (¬ IsFreq f → rtc_write (some f) run r ≡ (minus_one, r))
      × (rtc_write none run r ≡ (minus_one, r))
unfolding rtc_write
rtc_write_lem f run r =
    (λ good. rw (rate_good f good, rtc_write), λ bad. rw (rate_bad f bad, rtc_write), refl)
