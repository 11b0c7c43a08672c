-- ===== src/Pic.antt =====
-- The interrupt controllers of mp3/student-distrib/i8259.c: the two masks, and the bytes sent to
-- I/O ports, with the port, the newest first.
pub mod Masks
use ece_391_fall.Prelude.{ℕ, ◌+◌, ◌-◌, ◌^◌, bit_and, bit_or, List, [], ◌∷◌, ltb, if◌then◌else◌}

abbrev pub Ports : Type 0
Ports = List (ℕ × ℕ)

abbrev pub outb : ℕ → ℕ → Ports → Ports
outb v port ps = (v, port) ∷ ps

abbrev pub master_8259_port : ℕ
master_8259_port = 0x20

abbrev pub slave_8259_port : ℕ
slave_8259_port = 0xA0

abbrev pub eoi : ℕ
eoi = 0x60

pub record Pic : Type 0 where
  pub master_mask : ℕ
  pub slave_mask : ℕ
  pub ports : Ports

-- Both masks go out to the data ports.
abbrev pub send_masks : Pic → Pic
send_masks p = record p {
  ports =
      outb p.slave_mask (slave_8259_port + 1) (outb p.master_mask (master_8259_port + 1) p.ports);
}

unfoldable pub enable_irq : ℕ → Pic → Pic
enable_irq irq_num p =
    if ltb 15 irq_num
    then p
    else send_masks (
        if ltb irq_num 8
        then record p { master_mask = bit_and p.master_mask (255 - 2 ^ irq_num) }
        else record p { slave_mask = bit_and p.slave_mask (255 - 2 ^ (irq_num - 8)) })

unfoldable pub disable_irq : ℕ → Pic → Pic
disable_irq irq_num p =
    if ltb 15 irq_num
    then p
    else send_masks (
        if ltb irq_num 8
        then record p { master_mask = bit_or p.master_mask (2 ^ irq_num) }
        else record p { slave_mask = bit_or p.slave_mask (2 ^ (irq_num - 8)) })

unfoldable pub send_eoi : ℕ → Ports → Ports
send_eoi irq_num ps =
    if ltb 15 irq_num
    then ps
    else if ltb irq_num 8
    then outb (bit_or eoi irq_num) master_8259_port ps
    else outb (bit_or eoi 2) master_8259_port (outb (bit_or eoi (irq_num - 8)) slave_8259_port ps)

-- The control words, in the order in which they are sent.
abbrev pub control_words : Ports → Ports
control_words ps =
    let ps = outb 0xFF (slave_8259_port + 1) (outb 0xFF (master_8259_port + 1) ps) in
    let ps = outb 0x11 slave_8259_port (outb 0x11 master_8259_port ps) in
    let ps = outb 0x28 (slave_8259_port + 1) (outb 0x20 (master_8259_port + 1) ps) in
    let ps = outb 0x02 (slave_8259_port + 1) (outb 0x04 (master_8259_port + 1) ps) in
    outb 0x01 (slave_8259_port + 1) (outb 0x01 (master_8259_port + 1) ps)

unfoldable pub i8259_init : Pic → Pic
unfolding enable_irq
i8259_init p =
    enable_irq 2 (record { master_mask = 0xFF; slave_mask = 0xFF; ports = control_words p.ports })
