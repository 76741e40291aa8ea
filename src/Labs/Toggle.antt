-- ===== src/Labs/Toggle.antt =====
-- src/05-optimization/gpio/gpio.c, mmio/mmio.c and clock/clock.c: how long it takes to toggle a
-- pin, through its file and through its register, whose mapping is taken to succeed, as the code
-- does. The endless loops for the oscilloscope after it are left out.
use Prim.Native.Nat.{bit_xor}
use Prim.Native.String.{String, ◌++◌}
use mse_ma_csel.Common.{
  ℕ, zero, suc, ◌+◌, ◌-◌, ◌*◌, ◌/◌, ◌%◌, ◌^◌, ◌<◌, ◌≡◌, refl, Bool, false, not, ◌==◌, if◌then◌else◌,
  ◌>>◌, ◌>>=◌, pure, Option, none, some, ◌⊎◌, arith,
}
use mse_ma_csel.Common.Int.{ℤ, pos, ◌+ℤ◌, ◌-ℤ◌, ◌*ℤ◌}
use mse_ma_csel.Daemon.Posix.{Posix, pwrite}
use mse_ma_csel.Daemon.Led.{
  LedState, LedProc, is_minus_one, gpio_export, gpio_unexport, emit, open_path, put,
}

-- `GPIO_GPIOG11` and `GPIOG11`
abbrev pub gpio_gpiog11 : String
gpio_gpiog11 = "/sys/class/gpio/gpio203"

abbrev pub gpiog11 : String
gpiog11 = "203"

unfoldable pub open_gpio : Posix → LedProc ℤ
open_gpio os = do
  put os gpio_unexport gpiog11
  put os gpio_export gpiog11
  put os (gpio_gpiog11 ++ "/direction") "out"
  open_path os (gpio_gpiog11 ++ "/value")

-- The loop of gpio.c: the pin gets `on`, which then changes.
unfoldable pub toggles : ℕ → ℤ → Bool → LedProc Bool
toggles zero gpio on = pure on
toggles (suc n) gpio on = do emit (pwrite gpio (if on then "1" else "0")); toggles n gpio (not on)

-- `^= (1 << 11)` of a 32-bit number.
unfoldable pub flip : ℕ → ℕ
flip r = if r / 2 ^ 11 % 2 == 0 then r + 2 ^ 11 else r - 2 ^ 11

-- The loops of mmio.c.
unfoldable pub flips : ℕ → ℕ → ℕ
flips zero r = r
flips (suc n) r = flips n (flip r)

-- `struct timespec`
pub record TimeSpec : Type 0 where
  pub tv_sec : ℤ
  pub tv_nsec : ℤ

-- The nanoseconds from one reading of the clock to another.
unfoldable pub elapsed : TimeSpec → TimeSpec → ℤ
elapsed start stop =
    (stop.tv_nsec -ℤ start.tv_nsec) +ℤ (stop.tv_sec -ℤ start.tv_sec) *ℤ pos 1000000000

-- main of gpio.c up to the end of the measurement: whether the pin is to be set next.
unfoldable pub measure_pwrite : Posix → LedProc Bool
measure_pwrite os = do gpio ← open_gpio os; toggles 1000 gpio false

-- The data register of the port, from the start of the mapping on, in bytes.
abbrev pub dat_pio : ℕ
dat_pio = (0x810 + 6 * 0x24) / 4 * 4

-- main of mmio.c up to the end of both measurements, from a register that holds `r`: what it holds
-- then, and `data`; `none` if it returns -1.
unfoldable pub measure_mmio : Posix → ℕ → LedProc (Option (ℕ × ℕ))
measure_mmio os r = do
  gpio ← open_gpio os
  emit (pwrite gpio "1")
  emit (pwrite gpio "0")
  fd ← open_path os "/dev/mem"
  if is_minus_one fd then pure none else pure (some (flips 1000 r, flips 1000 0))

flip-xor :
    (flip 5 ≡ bit_xor 5 2048) × (flip 4095 ≡ bit_xor 4095 2048) × (flip 2048 ≡ bit_xor 2048 2048)
unfolding flip
flip-xor = (refl, refl, refl)

flip-flip : (r : ℕ) → flip (flip r) ≡ r
unfolding flip
flip-flip r = ground arith

flip_word : (r : ℕ) → r < 2 ^ 32 → flip r < 2 ^ 32
unfolding flip
flip_word r word = ground arith

-- An even number of toggles of bit 11 leave a register as it was, and an odd one leaves it with
-- just that bit changed.
pub flips-parity : (n r : ℕ) → flips n r ≡ (if n % 2 == 0 then r else flip r)
unfolding flips
flips-parity zero r = ground arith
flips-parity (suc zero) r = ground arith
flips-parity (suc (suc n)) r =
    let even : suc (suc n) % 2 ≡ n % 2 = omega arith in rw (flip-flip r, even) (flips-parity n r)

toggles-parity :
    (n : ℕ) (gpio : ℤ) (on : Bool) (s : LedState)
    → (toggles n gpio on s).0 ≡ (if n % 2 == 0 then on else not on)
unfolding toggles
toggles-parity zero gpio on s = ground arith
toggles-parity (suc zero) gpio on s = ground arith
toggles-parity (suc (suc n)) gpio on s =
    let t =
      (emit (pwrite gpio (if not on then "1" else "0"))
        (emit (pwrite gpio (if on then "1" else "0")) s).1).1 in
    ground (arith, toggles-parity n gpio (not (not on)) t)

-- Whatever the calls answer, both programs leave what they toggle as it was: the pin is to be set
-- to the value of the start again, and the port's register holds what it held, as does the
-- variable.
pub measures-restore :
    (os : Posix) (r : ℕ) (s : LedState)
    → ((measure_pwrite os s).0 ≡ false)
      × (((measure_mmio os r s).0 ≡ none) ⊎ ((measure_mmio os r s).0 ≡ some (r, 0)))
unfolding measure_pwrite measure_mmio
measures-restore os r s =
    let (gpio, t) = open_gpio os s in
    (toggles-parity 1000 gpio false t, ground (arith, flips-parity 1000 r, flips-parity 1000 0))
