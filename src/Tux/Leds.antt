-- ===== src/Tux/Leds.antt =====
-- The LED packets of mp2/module/tuxctl-ioctl.c, as the controller reads them by mp2/module/mtcp.h.
use ece_391_fall.Prelude.{
  ℕ, zero, suc, ◌+◌, ◌*◌, ◌/◌, ◌%◌, ◌^◌, ◌≤◌, ◌<◌, ◌≡◌, ◌≢◌, refl, ap, ◌∙◌, arith, List, [], ◌∷◌,
  ◌⊎◌, Option, none, some, Bool, true, false, Bool-cases, inl, inr, ◌&&◌, ◌==◌, ==_iff,
  if◌then◌else◌, bit_or, get_or, holds_to, holds_to_lem, subst,
}
use ece_391_fall.Tux.{Tux, mtcp_led_set, number, led_byte, led_bytes, tux_set_led}

abbrev tail : List ℕ → List ℕ
tail [] = []
tail (c ∷ cs) = cs

-- The byte for LED `led`, where the bytes come for the LEDs of the mask from `i` on.
pub byte_for : ℕ → ℕ → ℕ → List ℕ → ℕ → Option ℕ
byte_for zero i which bytes led = none
byte_for (suc k) i which bytes led =
    let skipped = byte_for k (i + 1) which bytes led in
    let later = byte_for k (i + 1) which (tail bytes) led in
    if (which / 2 ^ i) % 2 == 0
    then skipped
    else if i == led
    then some (get_or bytes 0 0)
    else later

-- The segments of a display, which mtcp.h names A, B, C, D, E, F and G in this order.
data Segment : Type 0 where
  top : Segment
  upper_right : Segment
  lower_right : Segment
  bottom : Segment
  lower_left : Segment
  upper_left : Segment
  middle : Segment

-- The bit of a byte that lights a segment; bit 4 is the decimal point.
segment_bit : Segment → ℕ
segment_bit top = 7
segment_bit lower_left = 6
segment_bit upper_left = 5
segment_bit middle = 3
segment_bit lower_right = 2
segment_bit upper_right = 1
segment_bit bottom = 0

-- The byte that lights the segments and nothing else.
lights : List Segment → ℕ
unfolding segment_bit
lights [] = 0
lights (x ∷ xs) = 2 ^ segment_bit x + lights xs

-- What the digits 0 to 9 and A, b, C, d, E and F look like.
shapes : List (List Segment)
shapes =
    (top ∷ upper_right ∷ lower_right ∷ bottom ∷ lower_left ∷ upper_left ∷ [])
    ∷ (upper_right ∷ lower_right ∷ [])
    ∷ (top ∷ upper_right ∷ middle ∷ lower_left ∷ bottom ∷ [])
    ∷ (top ∷ upper_right ∷ middle ∷ lower_right ∷ bottom ∷ [])
    ∷ (upper_left ∷ upper_right ∷ middle ∷ lower_right ∷ [])
    ∷ (top ∷ upper_left ∷ middle ∷ lower_right ∷ bottom ∷ [])
    ∷ (top ∷ upper_left ∷ middle ∷ lower_left ∷ lower_right ∷ bottom ∷ [])
    ∷ (top ∷ upper_right ∷ lower_right ∷ [])
    ∷ (top ∷ upper_right ∷ lower_right ∷ bottom ∷ lower_left ∷ upper_left ∷ middle ∷ [])
    ∷ (top ∷ upper_left ∷ upper_right ∷ middle ∷ lower_right ∷ bottom ∷ [])
    ∷ (top ∷ upper_left ∷ upper_right ∷ middle ∷ lower_left ∷ lower_right ∷ [])
    ∷ (upper_left ∷ middle ∷ lower_left ∷ lower_right ∷ bottom ∷ [])
    ∷ (top ∷ upper_left ∷ lower_left ∷ bottom ∷ [])
    ∷ (upper_right ∷ middle ∷ lower_left ∷ lower_right ∷ bottom ∷ [])
    ∷ (top ∷ upper_left ∷ middle ∷ lower_left ∷ bottom ∷ [])
    ∷ (top ∷ upper_left ∷ middle ∷ lower_left ∷ [])
    ∷ []

-- The digit whose shape a byte lights, from digit `n - 1` down.
pub digit_from : ℕ → ℕ → Option ℕ
unfolding lights shapes
digit_from zero byte = none
digit_from (suc n) byte =
    let rest = digit_from n byte in if lights (get_or shapes n []) == byte then some n else rest

abbrev digit_of : Option ℕ → Option ℕ
digit_of none = none
digit_of (some byte) = digit_from 16 byte

-- What the packet sent last shows on an LED.
pub shows : List (List ℕ) → ℕ → Option ℕ
unfolding byte_for digit_from
shows ((c ∷ which ∷ bytes) ∷ packets) led =
    if c == mtcp_led_set then digit_of (byte_for 4 0 which bytes led) else none
shows ((c ∷ []) ∷ packets) led = none
shows ([] ∷ packets) led = none
shows [] led = none

byte_for-earlier :
    (k i which led : ℕ) (bytes : List ℕ) → led < i → byte_for k i which bytes led ≡ none
unfolding byte_for
byte_for-earlier zero i which led bytes h = refl
byte_for-earlier (suc k) i which led bytes h =
    let apart : (i == led) ≡ false = ground (arith, h) in
    let skipped = byte_for-earlier k (i + 1) which led bytes (omega (arith, h)) in
    let later = byte_for-earlier k (i + 1) which led (tail bytes) (omega (arith, h)) in
    elim (Bool-cases ((which / 2 ^ i) % 2 == 0)) [
      | inl f ↦ rw f skipped
      | inr f ↦ rw (f, apart) later
    ]

byte_for-led_bytes :
    (k i which decimal arg led : ℕ)
    → i ≤ led
    → led < i + k
    → byte_for k i which (led_bytes k i which decimal arg) led
      ≡ (if (which / 2 ^ led) % 2 == 0 then none else some (led_byte led decimal arg))
unfolding byte_for led_bytes
byte_for-led_bytes zero i which decimal arg led h h' = absurd (omega (arith, h, h'))
byte_for-led_bytes (suc k) i which decimal arg led h h' = elim (Bool-cases (i == led)) [
  | inl e ↦
      let same = (==_iff i led).0 e in
      elim (Bool-cases ((which / 2 ^ i) % 2 == 0)) [
        | inl f ↦
            let off = subst (λ x. ((which / 2 ^ x) % 2 == 0) ≡ true) same f in
            rw (f, off)
              (byte_for-earlier k (i + 1) which led (led_bytes k (i + 1) which decimal arg)
                (omega (arith, same)))
        | inr f ↦
            let on = subst (λ x. ((which / 2 ^ x) % 2 == 0) ≡ false) same f in
            rw (f, e, on) (ap (λ x. some (led_byte x decimal arg)) same)
      ]
  | inr e ↦
      let rest =
        byte_for-led_bytes k (i + 1) which decimal arg led (ground (arith, e, h))
          (omega (arith, h')) in
      elim (Bool-cases ((which / 2 ^ i) % 2 == 0)) [ inl f ↦ rw f rest | inr f ↦ rw (f, e) rest ]
]

abbrev is_digit : Option ℕ → ℕ → Bool
is_digit none n = false
is_digit (some m) n = m == n

is_digit_lem : (o : Option ℕ) (n : ℕ) → is_digit o n ≡ true → o ≡ some n
is_digit_lem none n h = ground (arith, h)
is_digit_lem (some m) n h = ap some ((==_iff m n).0 h)

digits_table : holds_to 16 (λ n. is_digit (digit_from 16 (bit_or (number n) 0)) n) ≡ true
unfolding holds_to digit_from
digits_table = refl

unlit_table : holds_to 4 (λ i. (0 / 2 ^ i) % 2 == 0) ≡ true
unfolding holds_to
unlit_table = refl

-- When the driver may send, it sends for every LED of the mask the segments of that LED's digit, and for no
-- other: lighting the segments A to G that the bits of a byte stand for in mtcp.h, on the LEDs in increasing order,
-- gives the usual shapes of the digits of the argument, provided that the argument has no decimal points.
pub tux_set_led-shows :
    (arg led : ℕ) (s : Tux)
    → s.ack ≢ 0
    → arg / 2 ^ 24 % 16 ≡ 0
    → led < 4
    → shows (tux_set_led arg s).sent led
      ≡ (if (arg / 2 ^ 16 % 16 / 2 ^ led) % 2 == 0 then none else some (arg / 2 ^ (led * 4) % 16))
unfolding shows tux_set_led
tux_set_led-shows arg led s ready plain h =
    let free : (s.ack == 0) ≡ false = ground (arith, ready) in
    let which : ℕ = arg / 2 ^ 16 % 16 in
    let digit : ℕ = arg / 2 ^ (led * 4) % 16 in
    let same : digit_from 16 (bit_or (number digit) 0) ≡ some digit = is_digit_lem _ digit (
      holds_to_lem 16 (λ n. is_digit (digit_from 16 (bit_or (number n) 0)) n) digit (omega arith)
        digits_table) in
    let unlit : ((0 / 2 ^ led) % 2 == 0) ≡ true =
      holds_to_lem 4 (λ i. (0 / 2 ^ i) % 2 == 0) led h unlit_table in
    rw (free, plain)
      (ap digit_of (byte_for-led_bytes 4 0 which 0 arg led (omega arith) (omega (arith, h)))
        ∙ elim (Bool-cases ((which / 2 ^ led) % 2 == 0)) [
          | inl e ↦ rw e refl
          | inr e ↦ rw (e, unlit) same
        ])

and_left : (a b : Bool) → (a && b) ≡ true → a ≡ true
and_left a b h = ground (arith, h)

and_right : (a b : Bool) → (a && b) ≡ true → b ≡ true
and_right a b h = ground (arith, h)

abbrev pub unpointed : ℕ → Bool
unpointed byte = (byte / 2 ^ 4) % 2 == 0

points_table :
    holds_to 16 (λ n. unpointed (bit_or (number n) 0) && unpointed (bit_or (number n) 1)) ≡ true
unfolding holds_to
points_table = refl

led_byte-unpointed : (i decimal arg : ℕ) → unpointed (led_byte i decimal arg) ≡ true
led_byte-unpointed i decimal arg =
    let digit : ℕ = arg / 2 ^ (i * 4) % 16 in
    let both =
      holds_to_lem 16 (λ n. unpointed (bit_or (number n) 0) && unpointed (bit_or (number n) 1))
        digit (omega arith) points_table in
    elim (Bool-cases ((decimal / 2 ^ i) % 2 == 0)) [
      | inl e ↦ rw e (and_left _ _ both)
      | inr e ↦ rw e (and_right _ _ both)
    ]

-- The decimal point of an LED is bit 4 of its byte. Whichever decimal points the argument asks for, the byte that is sent
-- for an LED of the mask has that bit clear, so that no decimal point is ever lit.
pub byte_for-unpointed :
    (k i which decimal arg led : ℕ)
    → i ≤ led
    → led < i + k
    → (byte_for k i which (led_bytes k i which decimal arg) led ≡ none)
      ⊎ ((byte : ℕ) × (byte_for k i which (led_bytes k i which decimal arg) led ≡ some byte)
          × (unpointed byte ≡ true))
byte_for-unpointed k i which decimal arg led h h' =
    let at = byte_for-led_bytes k i which decimal arg led h h' in
    elim (Bool-cases ((which / 2 ^ led) % 2 == 0)) [
      | inl e ↦ inl (at ∙ rw e refl)
      | inr e ↦ inr (led_byte led decimal arg, at ∙ rw e refl, led_byte-unpointed led decimal arg)
    ]
