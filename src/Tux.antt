-- ===== src/Tux.antt =====
-- The driver of the Tux controller, mp2/module/tuxctl-ioctl.c. Its three static variables are a record, with the
-- packets that tuxctl_ldisc_put has been given, the newest first.
pub mod Leds
pub mod Flow
use ece_391_fall.Prelude.{
  ℕ, zero, suc, ◌+◌, ◌-◌, ◌*◌, ◌/◌, ◌%◌, ◌^◌, List, [], ◌∷◌, ◌++◌, Bool, not, ltb, ◌==◌,
  if◌then◌else◌, sub32, bit_or, bit_and, get_or,
}

abbrev pub mtcp_ack : ℕ
mtcp_ack = 0x40

abbrev pub mtcp_bioc_event : ℕ
mtcp_bioc_event = 0x41

abbrev pub mtcp_reset : ℕ
mtcp_reset = 0x46

abbrev pub mtcp_bioc_on : ℕ
mtcp_bioc_on = 0xC3

abbrev pub mtcp_led_set : ℕ
mtcp_led_set = 0xC6

abbrev pub mtcp_led_usr : ℕ
mtcp_led_usr = 0xC8

pub record Tux : Type 0 where
  pub ack : ℕ
  pub button : ℕ
  pub led : ℕ
  pub sent : List (List ℕ)

abbrev pub put : List ℕ → Tux → Tux
put packet s = record s { sent = packet ∷ s.sent }

unfoldable pub tux_init : Tux → Tux
tux_init s =
    let s1 = put (mtcp_led_usr ∷ []) (put (mtcp_bioc_on ∷ []) s) in
    record s1 { led = 0; ack = 0; button = 0 }

-- The segments of the digits 0 to F.
abbrev pub number : ℕ → ℕ
number n =
    get_or
      (0xE7 ∷ 0x06 ∷ 0xCB ∷ 0x8F ∷ 0x2E ∷ 0xAD ∷ 0xED ∷ 0x86 ∷ 0xEF ∷ 0xAF ∷ 0xEE ∷ 0x6D ∷ 0xE1
        ∷ 0x4F ∷ 0xE9 ∷ 0xE8 ∷ [])
      n 0

-- The byte of LED `i`.
abbrev pub led_byte : ℕ → ℕ → ℕ → ℕ
led_byte i decimal arg =
    bit_or (number (arg / 2 ^ (i * 4) % 16)) (if (decimal / 2 ^ i) % 2 == 0 then 0 else 1)

-- The loop of tux_set_led from LED `i` with `k` left.
pub led_bytes : ℕ → ℕ → ℕ → ℕ → ℕ → List ℕ
led_bytes zero i which decimal arg = []
led_bytes (suc k) i which decimal arg =
    let rest = led_bytes k (i + 1) which decimal arg in
    if (which / 2 ^ i) % 2 == 0 then rest else led_byte i decimal arg ∷ rest

unfoldable pub tux_set_led : ℕ → Tux → Tux
unfolding led_bytes
tux_set_led arg s =
    let which : ℕ = arg / 2 ^ 16 % 16 in
    let decimal : ℕ = arg / 2 ^ 24 % 16 in
    let s1 = put (mtcp_led_usr ∷ []) s in
    if s1.ack == 0
    then s1
    else record (put (mtcp_led_set ∷ which ∷ led_bytes 4 0 which decimal arg) s1) {
      ack = 0;
      led = arg;
    }

-- `~x & 0x0F`.
abbrev pub inverted : ℕ → ℕ
inverted x = 15 - x % 16

pub pressed : ℕ → ℕ → ℕ
pressed b c =
    let direction = inverted c in
    bit_or
      (bit_or (bit_or (bit_and direction 0x02 * 2) (bit_and direction 0x04 / 2))
          (bit_and direction 0x09)
        * 2 ^ 4)
      (inverted b)

unfoldable pub tuxctl_handle_packet : ℕ → ℕ → ℕ → Tux → Tux
unfolding pressed tux_init tux_set_led
tuxctl_handle_packet a b c s =
    let s1 = if a == mtcp_ack then record s { ack = 1 } else s in
    let s2 = if a == mtcp_bioc_event then record s1 { button = pressed b c } else s1 in
    if a == mtcp_reset then tux_set_led (tux_init s2).led (tux_init s2) else s2

-- What an ioctl does to the caller: its result, and the word that it has stored.
pub data Reply : Type 0 where
  done : Reply
  stored : ℕ → ℕ → Reply
  einval : Reply

-- `behind` are the three bytes in memory after `button`. The value of tux_buttons is not looked at.
unfoldable pub tux_buttons : ℕ → ℕ → Tux → Reply
tux_buttons behind arg s = if arg == 0 then done else stored arg (s.button + behind * 2 ^ 8)

pub data Command : Type 0 where
  init : Command
  buttons : Command
  set_led : Command
  other : Command

unfoldable pub tuxctl_ioctl : ℕ → Command → ℕ → Tux → Reply × Tux
unfolding tux_init tux_set_led tux_buttons
tuxctl_ioctl behind init arg s = (done, tux_init s)
tuxctl_ioctl behind buttons arg s = (tux_buttons behind arg s, s)
tuxctl_ioctl behind set_led arg s = (done, tux_set_led arg s)
tuxctl_ioctl behind other arg s = (einval, s)
