-- ===== src/LedController.antt =====
-- src/03-led-controller: the LED that flashes with a duty cycle of 2 %, and the three buttons that
-- change its period. Its files are LedController/Gpio.
pub mod Gpio
pub mod Period
pub mod Run
pub mod Turns
pub mod Flashing
pub mod Disarmed
use mse_ma_csel.Common.{ℕ, Bool, true, false, not, ◌&&◌, ◌*◌, ◌/◌, ◌%◌, ◌==◌, if◌then◌else◌}
use mse_ma_csel.Common.Int.{ℤ, pos, negsuc, ◌+ℤ◌, ◌-ℤ◌, ◌*ℤ◌, tdiv, leb_ℤ}
use mse_ma_csel.Common.Words.{wrap32}
use mse_ma_csel.Daemon.Posix.{same_fd}

-- `DEFAULT_TIME_MS` and `DUTY_CYCLE_PERCENT`
abbrev pub default_time_ms : ℕ
default_time_ms = 1000

abbrev pub duty_cycle_percent : ℕ
duty_cycle_percent = 2

-- The descriptors of the buttons' files, `btn[0]` to `btn[2]`.
pub record ButtonFds : Type 0 where
  pub btn0 : ℤ
  pub btn1 : ℤ
  pub btn2 : ℤ

-- An event: its descriptor, and the first byte of the file.
pub record Event : Type 0 where
  pub fd : ℤ
  pub value : ℕ

-- The first statement of an event's branch, on `flash_period_ms`, a `long`; the log is left out.
unfoldable pub on_event : ButtonFds → Event → ℤ → ℤ
unfolding ◌+ℤ◌ ◌-ℤ◌
on_event btn e p =
    if same_fd e.fd btn.btn0
    then (if e.value == b'1' then p +ℤ pos 200 else p)
    else if same_fd e.fd btn.btn1
    then (if e.value == b'1' then pos default_time_ms else p)
    else if same_fd e.fd btn.btn2
    then (if e.value == b'1' then p -ℤ pos 200 else p)
    else p

-- The branch is the third button's, in which a second statement follows.
abbrev pub lowers : ButtonFds → Event → Bool
lowers btn e =
    not (same_fd e.fd btn.btn0)
    && not (same_fd e.fd btn.btn1)
    && same_fd e.fd btn.btn2
    && e.value == b'1'

-- The second statement: 200 ms at least.
unfoldable pub at_least_200 : ℤ → ℤ
at_least_200 p = if leb_ℤ p (pos 0) then pos 200 else p

-- `it_value` of the timer; `it_interval` is zero.
pub record TimeSpec : Type 0 where
  pub tv_sec : ℤ
  pub tv_nsec : ℤ

-- C's `%` by a positive number, with the sign of the left side.
abbrev pub tmod : ℤ → ℕ → ℤ
tmod (pos n) d = pos (n % d)
tmod (negsuc n) d = pos 0 -ℤ pos (ℕ.suc n % d)

-- `timer_set_time`
unfoldable pub timer_set_time : ℤ → TimeSpec
unfolding ◌*ℤ◌ ◌-ℤ◌
timer_set_time period_ms = record {
  tv_sec = tdiv period_ms 1000;
  tv_nsec = tmod period_ms 1000 *ℤ pos 1_000_000;
}

-- What a turn of `timer_thread` leaves: `isLedOn`, what it writes to the LED, and the timer.
pub record Flash : Type 0 where
  pub is_led_on : Bool
  pub written : Bool  -- `led_on(led)` or `led_off(led)`
  pub delay : ℤ
  pub timer : TimeSpec

unfoldable pub time_on : ℤ → ℤ
unfolding ◌*ℤ◌
time_on flash_period_ms = tdiv flash_period_ms 100 *ℤ pos duty_cycle_percent

-- A turn of `timer_thread` from its second look at `flash_period_ms` on, with the `time_on_ms` of
-- the first: the LED changes, and the timer is set for `delay`, an `int`.
unfoldable pub timer_turn : ℤ → ℤ → Bool → Flash
unfolding ◌-ℤ◌
timer_turn time_on_ms flash_period_ms false =
    let delay = wrap32 time_on_ms in
    record { is_led_on = true; written = true; delay = delay; timer = timer_set_time delay }
timer_turn time_on_ms flash_period_ms true =
    let delay = wrap32 (flash_period_ms -ℤ time_on_ms) in
    record { is_led_on = false; written = false; delay = delay; timer = timer_set_time delay }
