-- ===== src/Tux/Flow.antt =====
-- The flow control of the Tux controller: LED packets against acknowledgements.
use ece_391_fall.Prelude.{
  ℕ, ◌+◌, ◌≤◌, arith, List, [], ◌∷◌, Bool, true, false, Bool-cases, inl, inr, ◌==◌, if◌then◌else◌,
}
use ece_391_fall.Tux.{
  Tux, mtcp_ack, mtcp_led_set, mtcp_bioc_event, mtcp_reset, pressed, tux_init, tux_set_led,
  tuxctl_handle_packet, tuxctl_ioctl, Command, init, buttons, set_led, other,
}

-- What happens to the driver: a packet from the controller, or a call.
pub data Event : Type 0 where
  packet : ℕ → ℕ → ℕ → Event
  call : ℕ → Command → ℕ → Event

pub handle : Event → Tux → Tux
unfolding tuxctl_handle_packet tuxctl_ioctl
handle (packet a b c) s = tuxctl_handle_packet a b c s
handle (call behind cmd arg) s = (tuxctl_ioctl behind cmd arg s).1

pub run : List Event → Tux → Tux
unfolding handle
run [] s = s
run (e ∷ es) s = run es (handle e s)

-- A packet that sets LEDs.
abbrev is_led_set : List ℕ → ℕ
is_led_set [] = 0
is_led_set (c ∷ cs) = if c == mtcp_led_set then 1 else 0

pub led_packets : List (List ℕ) → ℕ
led_packets [] = 0
led_packets (p ∷ ps) = is_led_set p + led_packets ps

-- An acknowledgement.
abbrev is_ack : Event → ℕ
is_ack (packet a b c) = if a == mtcp_ack then 1 else 0
is_ack (call behind cmd arg) = 0

pub acks : List Event → ℕ
acks [] = 0
acks (e ∷ es) = is_ack e + acks es

-- The LED packets sent, and the one that may be sent.
unfoldable load : Tux → ℕ
unfolding led_packets
load s = led_packets s.sent + s.ack

load-if : (b : Bool) (s t : Tux) (n : ℕ) → load s ≤ n → load t ≤ n → load (if b then s else t) ≤ n
load-if true s t n h h' = h
load-if false s t n h h' = h'

init-load : (s : Tux) → load (tux_init s) ≤ load s
unfolding load tux_init
init-load s = omega arith

set_led-load : (arg : ℕ) (s : Tux) → load (tux_set_led arg s) ≤ load s
unfolding load tux_set_led
set_led-load arg s = elim (Bool-cases (s.ack == 0)) [
  | inl e ↦ rw e (omega arith)
  | inr e ↦ rw e (ground (arith, e))
]

reset-load : (s : Tux) → load (tux_set_led (tux_init s).led (tux_init s)) ≤ load s
reset-load s = omega (arith, set_led-load (tux_init s).led (tux_init s), init-load s)

acknowledged-load :
    (a : ℕ) (s : Tux)
    → load (if a == mtcp_ack then record s { ack = 1 } else s)
      ≤ (if a == mtcp_ack then 1 else 0) + load s
unfolding load
acknowledged-load a s = elim (Bool-cases (a == mtcp_ack)) [
  | inl e ↦ rw e (omega arith)
  | inr e ↦ rw e (omega arith)
]

button-load : (v : ℕ) (s : Tux) (n : ℕ) → load s ≤ n → load (record s { button = v }) ≤ n
unfolding load
button-load v s n h = h

handle-load : (e : Event) (s : Tux) → load (handle e s) ≤ is_ack e + load s
unfolding handle tuxctl_ioctl tuxctl_handle_packet
handle-load (packet a b c) s =
    let s1 = if a == mtcp_ack then record s { ack = 1 } else s in
    let s2 = if a == mtcp_bioc_event then record s1 { button = pressed b c } else s1 in
    let n : ℕ = (if a == mtcp_ack then 1 else 0) + load s in
    let h1 : load s1 ≤ n = acknowledged-load a s in
    let h2 : load s2 ≤ n =
      load-if (a == mtcp_bioc_event) (record s1 { button = pressed b c }) s1 n
        (button-load (pressed b c) s1 n h1) h1 in
    load-if (a == mtcp_reset) _ s2 n (omega (arith, reset-load s2, h2)) h2
handle-load (call behind init arg) s = omega (arith, init-load s)
handle-load (call behind buttons arg) s = omega arith
handle-load (call behind set_led arg) s = omega (arith, set_led-load arg s)
handle-load (call behind other arg) s = omega arith

run-load : (es : List Event) (s : Tux) → load (run es s) ≤ acks es + load s
unfolding run acks
run-load [] s = omega arith
run-load (e ∷ es) s = omega (arith, run-load es (handle e s), handle-load e s)

-- Whatever the controller sends and the programs ask for, in any order: the driver never sends more packets that set
-- LEDs than the controller has sent acknowledgements, beyond those that it had sent, or was free to send, before.
pub run-led_packets :
    (es : List Event) (s : Tux) → led_packets (run es s).sent ≤ acks es + led_packets s.sent + s.ack
unfolding load
run-led_packets es s = omega (arith, run-load es s)
