-- ===== src/Kernel/Temp/Formula.antt =====
-- What the sensor's register stands for.
use mse_ma_csel.Common.{ℕ, suc, ◌-◌, ◌*◌, ◌/◌, ◌≤◌, ◌<◌, ◌^◌, ◌≡◌, arith, ltb, leb, if◌then◌else◌}
use mse_ma_csel.Common.Int.{pos, negsuc, sub_ℕ, tdiv, ◌+ℤ◌, ◌*ℤ◌}
use mse_ma_csel.Common.Words.{u32, i32, wrap32}
use mse_ma_csel.Kernel.Temp.{line, to_temperature}

product : (s raw : ℕ) → raw < 2 ^ 20 → negsuc s *ℤ i32 raw ≡ sub_ℕ 0 (suc s * raw)
unfolding ◌*ℤ◌
product s raw h = ground arith

wrap32-neg : (n : ℕ) → n < 2 ^ 31 → wrap32 (sub_ℕ 0 n) ≡ sub_ℕ 0 n
wrap32-neg n h = ground arith

tdiv-neg : (n : ℕ) → tdiv (sub_ℕ 0 n) 10 ≡ sub_ℕ 0 (n / 10)
tdiv-neg n = ground arith

neg-plus : (m o : ℕ) → sub_ℕ 0 m +ℤ pos o ≡ sub_ℕ o m
unfolding ◌+ℤ◌
neg-plus m o = ground arith

u32-sub_ℕ :
    (o m : ℕ)
    → o < 2 ^ 31
    → m < 2 ^ 31
    → u32 (wrap32 (sub_ℕ o m)) ≡ (if leb m o then o - m else 2 ^ 32 - (m - o))
u32-sub_ℕ o m h k = ground arith

-- With no overflow on the way, the line is the integer `offset - (slope + 1) * raw / 10`.
line_lem :
    (s o raw : ℕ)
    → raw < 2 ^ 20
    → suc s * raw < 2 ^ 31
    → o < 2 ^ 31
    → line s o raw
      ≡ (if leb (suc s * raw / 10) o then o - suc s * raw / 10 else 2 ^ 32 - (suc s * raw / 10 - o))
unfolding line
line_lem s o raw small fits ho = rw (product s raw small) (
    rw (wrap32-neg (suc s * raw) fits) (
      rw (tdiv-neg (suc s * raw))
        (rw (neg-plus (suc s * raw / 10) o) (u32-sub_ℕ o (suc s * raw / 10) ho (omega arith)))))

-- The last register value whose temperature is not negative.
abbrev pub last_positive : ℕ
last_positive = 1872

to_temperature_hot : (raw : ℕ) → raw ≤ 0x500 → to_temperature raw ≡ 259000 - 1452 * raw / 10
unfolding to_temperature
to_temperature_hot raw h = ground (arith, line_lem 1451 259000 raw)

to_temperature_mild :
    (raw : ℕ) → 0x500 < raw → raw ≤ last_positive → to_temperature raw ≡ 223000 - 1191 * raw / 10
unfolding to_temperature
to_temperature_mild raw h k = ground (arith, line_lem 1190 223000 raw)

to_temperature_cold :
    (raw : ℕ)
    → last_positive < raw
    → raw < 2 ^ 20
    → to_temperature raw ≡ 2 ^ 32 - (1191 * raw / 10 - 223000)
unfolding to_temperature
to_temperature_cold raw h k = ground (arith, line_lem 1190 223000 raw)

-- No step of the two formulas overflows for a register value up to 1872, and the result is the
-- number of thousandths of a degree that the datasheet's line for that value gives.
pub to_temperature_exact :
    (raw : ℕ)
    → raw ≤ last_positive
    → to_temperature raw
      ≡ (if ltb 0x500 raw then 223000 - 1191 * raw / 10 else 259000 - 1452 * raw / 10)
to_temperature_exact raw h = ground (arith, to_temperature_hot raw, to_temperature_mild raw)

-- A larger register value up to 1872 never stands for a higher temperature, also across the change
-- of formula, and every such temperature is at most 259 degrees.
pub to_temperature_antitone :
    (a b : ℕ)
    → a ≤ b
    → b ≤ last_positive
    → (to_temperature b ≤ to_temperature a) × (to_temperature a ≤ 259000)
to_temperature_antitone a b h k = ground (
  arith,
  to_temperature_hot a,
  to_temperature_mild a,
  to_temperature_hot b,
  to_temperature_mild b,
)

-- Where the formula's value is below zero (a register value from 1873 up to 2 ^ 20), the result is
-- no small temperature but a huge one: more than four million degrees.
pub to_temperature_wraps :
    (raw : ℕ) → last_positive < raw → raw < 2 ^ 20 → 4000000000 ≤ to_temperature raw
to_temperature_wraps raw h k = omega (arith, to_temperature_cold raw h k)

-- The values 0x501 to 0x504 are converted by the formula that is meant for less than 70 degrees,
-- and stand for 70 degrees and more.
pub to_temperature_above_70 : (raw : ℕ) → 0x500 < raw → raw ≤ 0x504 → 70000 ≤ to_temperature raw
to_temperature_above_70 raw h k = omega (arith, to_temperature_mild raw h (omega arith))
