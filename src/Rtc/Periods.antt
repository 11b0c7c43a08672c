-- ===== src/Rtc/Periods.antt =====
-- The periods of the virtual clocks.
use ece_391_fall.Prelude.{
  ℕ, zero, suc, ◌+◌, ◌/◌, ◌%◌, ◌^◌, ◌≤◌, ◌<◌, ◌≡◌, ◌≢◌, arith, subst, sym, ◌==◌, if◌then◌else◌,
}
use ece_391_fall.Rtc.Frequency.{IsFreq}

-- A statement about each good frequency, from its ten cases.
each_freq :
    (P : ℕ → Type 0)
    → P 2 × P 4 × P 8 × P 16 × P 32 × P 64 × P 128 × P 256 × P 512 × P 1024
    → (f : ℕ) → IsFreq f
    → P f
each_freq P h f (k, lo, hi, e) = subst P (sym e) (at_power k lo hi)
  where
    at_power : (k : ℕ) → 1 ≤ k → k ≤ 10 → P (2 ^ k)
    at_power zero lo hi = absurd (omega arith)
    at_power (suc zero) lo hi = h.0
    at_power (suc (suc zero)) lo hi = h.1
    at_power (suc (suc (suc zero))) lo hi = h.2
    at_power (suc (suc (suc (suc zero)))) lo hi = h.3
    at_power (suc (suc (suc (suc (suc zero))))) lo hi = h.4
    at_power (suc (suc (suc (suc (suc (suc zero)))))) lo hi = h.5
    at_power (suc (suc (suc (suc (suc (suc (suc zero))))))) lo hi = h.6
    at_power (suc (suc (suc (suc (suc (suc (suc (suc zero)))))))) lo hi = h.7
    at_power (suc (suc (suc (suc (suc (suc (suc (suc (suc zero))))))))) lo hi = h.8
    at_power (suc (suc (suc (suc (suc (suc (suc (suc (suc (suc zero)))))))))) lo hi = h.9
    at_power (suc (suc (suc (suc (suc (suc (suc (suc (suc (suc (suc k))))))))))) lo hi =
        absurd (omega arith)

-- What the period of a good frequency has to do with the count: it divides the range of the
-- counter, and goes into 1024 as often as the frequency says.
pub record GoodPeriod (f : ℕ) : Type 0 where
  pub positive : 0 < 1024 / f
  pub wraps : (c : ℕ) → c % 2 ^ 32 % (1024 / f) ≡ c % (1024 / f)
  pub step :
      (c : ℕ) → (c + 1) / (1024 / f) ≡ c / (1024 / f) + (if (c + 1) % (1024 / f) == 0 then 1 else 0)
  pub turn : (c : ℕ) → (c + 1) % (1024 / f) ≢ 0 → (c + 1) % (1024 / f) ≡ c % (1024 / f) + 1
  pub below : (c : ℕ) → c % (1024 / f) < 1024 / f
  pub second : (c : ℕ) → (c + 1024) / (1024 / f) ≡ c / (1024 / f) + f

good_2 : GoodPeriod 2
good_2 = record {
  positive = omega arith;
  wraps = λ c. omega arith;
  step = λ c. ground arith;
  turn = λ c h. omega arith;
  below = λ c. omega arith;
  second = λ c. omega arith;
}

good_4 : GoodPeriod 4
good_4 = record {
  positive = omega arith;
  wraps = λ c. omega arith;
  step = λ c. ground arith;
  turn = λ c h. omega arith;
  below = λ c. omega arith;
  second = λ c. omega arith;
}

good_8 : GoodPeriod 8
good_8 = record {
  positive = omega arith;
  wraps = λ c. omega arith;
  step = λ c. ground arith;
  turn = λ c h. omega arith;
  below = λ c. omega arith;
  second = λ c. omega arith;
}

good_16 : GoodPeriod 16
good_16 = record {
  positive = omega arith;
  wraps = λ c. omega arith;
  step = λ c. ground arith;
  turn = λ c h. omega arith;
  below = λ c. omega arith;
  second = λ c. omega arith;
}

good_32 : GoodPeriod 32
good_32 = record {
  positive = omega arith;
  wraps = λ c. omega arith;
  step = λ c. ground arith;
  turn = λ c h. omega arith;
  below = λ c. omega arith;
  second = λ c. omega arith;
}

good_64 : GoodPeriod 64
good_64 = record {
  positive = omega arith;
  wraps = λ c. omega arith;
  step = λ c. ground arith;
  turn = λ c h. omega arith;
  below = λ c. omega arith;
  second = λ c. omega arith;
}

good_128 : GoodPeriod 128
good_128 = record {
  positive = omega arith;
  wraps = λ c. omega arith;
  step = λ c. ground arith;
  turn = λ c h. omega arith;
  below = λ c. omega arith;
  second = λ c. omega arith;
}

good_256 : GoodPeriod 256
good_256 = record {
  positive = omega arith;
  wraps = λ c. omega arith;
  step = λ c. ground arith;
  turn = λ c h. omega arith;
  below = λ c. omega arith;
  second = λ c. omega arith;
}

good_512 : GoodPeriod 512
good_512 = record {
  positive = omega arith;
  wraps = λ c. omega arith;
  step = λ c. ground arith;
  turn = λ c h. omega arith;
  below = λ c. omega arith;
  second = λ c. omega arith;
}

good_1024 : GoodPeriod 1024
good_1024 = record {
  positive = omega arith;
  wraps = λ c. omega arith;
  step = λ c. ground arith;
  turn = λ c h. omega arith;
  below = λ c. omega arith;
  second = λ c. omega arith;
}

pub IsFreq-GoodPeriod : (f : ℕ) → IsFreq f → GoodPeriod f
IsFreq-GoodPeriod =
    each_freq GoodPeriod
      (good_2, good_4, good_8, good_16, good_32, good_64, good_128, good_256, good_512, good_1024)
