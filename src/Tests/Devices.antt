-- ===== src/Tests/Devices.antt =====
-- The theorems on the interrupt controller and the clock.
use ece_391_fall.Prelude.{◌≡◌, refl, arith, [], some}
use ece_391_fall.Pic.{Pic}
use ece_391_fall.Pic.Masks.{IsPic}
use ece_391_fall.Rtc.{Rtc, rtc_read}
use ece_391_fall.Rtc.Virtual.{virtual_count, virtual_count-second, rtc_read_returns}
use ece_391_fall.Tests.Images.{clock}

abbrev masks : Pic
masks = record { master_mask = 0xFB; slave_mask = 0xFF; ports = [] }

masks-IsPic : IsPic masks
masks-IsPic = record { master = omega arith; slave = omega arith }

virtual_count-second_example : virtual_count 1024 clock 2 ≡ 2
virtual_count-second_example =
    virtual_count-second clock 2 (omega arith) (1, omega arith, omega arith, refl) (omega arith)

rtc_read_returns_example :
    (r' : Rtc) × (rtc_read 513 0 clock ≡ some (0, r')) × (r'.intr 0 ≡ 0) × (r'.freq ≡ clock.freq)
rtc_read_returns_example =
    rtc_read_returns 513 0 clock (omega arith) (1, omega arith, omega arith, refl) (omega arith)
