-- ===== src/Rtc.antt =====
-- The real-time clock of mp3/student-distrib/rtc.c. Each of the three terminals has a virtual
-- frequency and a flag that a virtual interrupt has come.
pub mod Frequency
pub mod Periods
pub mod Virtual
use ece_391_fall.Prelude.{
  ℕ, zero, suc, ◌+◌, ◌-◌, ◌*◌, ◌/◌, ◌%◌, ◌^◌, bit_and, bit_or, Bool, List, ◌∷◌, Option, none, some,
  ltb, ◌==◌, if◌then◌else◌, update, add32, minus_one, slt,
}
use ece_391_fall.Pic.{Ports, outb, send_eoi}

abbrev pub rtc_port : ℕ
rtc_port = 0x70

abbrev pub rtc_cmos_port : ℕ
rtc_cmos_port = 0x71

-- `freq` and `intr`, the counter, and the bytes sent to I/O ports, the newest first.
pub record Rtc : Type 0 where
  pub rtc_flag : ℕ
  pub rtc_counter : ℕ
  pub freq : ℕ → ℕ
  pub intr : ℕ → ℕ
  pub ports : Ports

-- `prev` is the byte read from register B. The caller enables IRQ 8.
unfoldable pub rtc_init : ℕ → Rtc → Rtc
rtc_init prev r = record r {
  rtc_counter = 0;
  ports = outb (bit_or prev 0x40) rtc_cmos_port (outb 0x8B rtc_port (outb 0x8B rtc_port r.ports));
}

-- The loop over the terminals from `i` with `k` left.
pub mark_from : ℕ → ℕ → Rtc → Rtc
mark_from zero i r = r
mark_from (suc k) i r =
    mark_from k (i + 1)
      (if r.rtc_counter % (1024 / r.freq i) == 0 then record r { intr = update r.intr i 1 } else r)

unfoldable pub rtc_handler : Rtc → Rtc
unfolding send_eoi
rtc_handler r =
    let r' = mark_from 3 0 (record r { rtc_counter = add32 r.rtc_counter 1 }) in
    record r' { rtc_flag = 1; ports = send_eoi 8 (outb 0x0C rtc_port r'.ports) }

-- `prev` is the byte read from register A.
unfoldable pub rtc_set_freq : ℕ → ℕ → Rtc → Rtc
rtc_set_freq prev rate r =
    let low : ℕ = bit_and rate 0x0F in
    let clamped : ℕ = if slt low 6 then 6 else low in
    record r {
      ports =
          outb (bit_or (bit_and prev 0xF0) clamped) rtc_cmos_port
            (outb 0x8A rtc_port (outb 0x8A rtc_port r.ports));
    }

unfoldable pub freq_to_rate : ℕ → ℕ
freq_to_rate freq =
    if freq == 2
    then 0x0F
    else if freq == 4
    then 0x0E
    else if freq == 8
    then 0x0D
    else if freq == 16
    then 0x0C
    else if freq == 32
    then 0x0B
    else if freq == 64
    then 0x0A
    else if freq == 128
    then 0x09
    else if freq == 256
    then 0x08
    else if freq == 512
    then 0x07
    else if freq == 1024
    then 0x06
    else minus_one

-- `run` is the running terminal; `opened` says that the file name is no null pointer.
unfoldable pub rtc_open : Bool → ℕ → Rtc → ℕ × Rtc
rtc_open opened run r =
    if opened
    then (0, record r { freq = update r.freq run 2; intr = update r.intr run 0 })
    else (minus_one, r)

-- The wait for the flag: each round in which it is not set, the clock interrupts once. `none`
-- when the fuel runs out.
pub await : ℕ → ℕ → Rtc → Option Rtc
await zero run r = none
await (suc fuel) run r =
    let rest = await fuel run (rtc_handler r) in if r.intr run == 0 then rest else some r

unfoldable pub rtc_read : ℕ → ℕ → Rtc → Option (ℕ × Rtc)
rtc_read fuel run r = elim (await fuel run (record r { rtc_flag = 0 })) [
  | none ↦ none
  | some r' ↦ some (0, record r' { intr = update r'.intr run 0 })
]

-- The buffer is `none` for a null pointer, or holds the frequency.
unfoldable pub rtc_write : Option ℕ → ℕ → Rtc → ℕ × Rtc
unfolding freq_to_rate
rtc_write none run r = (minus_one, r)
rtc_write (some frequency) run r =
    if freq_to_rate frequency == minus_one
    then (minus_one, r)
    else (0, record r { freq = update r.freq run frequency })

unfoldable pub rtc_close : ℕ → ℕ
rtc_close fd = 0
