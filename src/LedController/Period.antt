-- ===== src/LedController/Period.antt =====
-- The period that the buttons leave, and the timing of the flashes.
use mse_ma_csel.Common.{
  ℕ, ◌+◌, ◌-◌, ◌*◌, ◌/◌, ◌%◌, ◌^◌, ◌<◌, ◌≡◌, Bool, true, false, if◌then◌else◌, arith,
}
use mse_ma_csel.Common.Int.{ℤ, pos, negsuc, ◌≤ℤ◌, pos_part}
use mse_ma_csel.LedController.{
  ButtonFds, Event, on_event, lowers, at_least_200, timer_set_time, time_on, timer_turn,
}

-- A period is a positive multiple of 200 ms.
abbrev pub IsPeriod : ℤ → Type 0
IsPeriod p = (pos 200 ≤ℤ p) × (pos_part p % 200 ≡ 0)

-- The period once the button's branch is through: `lowered` if its second statement is still to be
-- run.
abbrev pub settled : Bool → ℤ → ℤ
settled lowered p = if lowered then at_least_200 p else p

pub on_event-IsPeriod :
    (btn : ButtonFds) (e : Event) (p : ℤ)
    → IsPeriod p
    → IsPeriod (settled (lowers btn e) (on_event btn e p))
unfolding on_event at_least_200
on_event-IsPeriod btn e (pos n) h = ground arith
on_event-IsPeriod btn e (negsuc n) h = absurd (omega arith)

pub on_event-bound :
    (btn : ButtonFds) (e : Event) (p : ℤ) (n : ℕ)
    → IsPeriod p
    → p ≤ℤ pos (1000 + n)
    → settled (lowers btn e) (on_event btn e p) ≤ℤ pos (1000 + n + 200)
unfolding on_event at_least_200
on_event-bound btn e (pos m) n h b = ground arith
on_event-bound btn e (negsuc m) n h b = absurd (omega arith)

-- For a period that is a positive multiple of 200 ms and fits an `int`, the LED is on for a
-- fiftieth of it and off for the rest.
pub duty_cycle :
    (p : ℕ)
    → IsPeriod (pos p)
    → p < 2 ^ 31
    → let lit = timer_turn (time_on (pos p)) (pos p) false in
      let dark = timer_turn (time_on (pos p)) (pos p) true in
      (lit.is_led_on ≡ true)
      × (dark.is_led_on ≡ false)
      × (50 * pos_part lit.delay ≡ p)
      × (pos_part lit.delay + pos_part dark.delay ≡ p)
unfolding timer_turn time_on
duty_cycle p h small = ground arith

-- For a period that is a positive multiple of 200 ms and fits an `int`, the timer's two fields
-- stand for the delay, the second is in range, and not both are zero, which would stop the timer
-- for good.
pub timer_runs_on :
    (p : ℕ) (on : Bool)
    → IsPeriod (pos p)
    → p < 2 ^ 31
    → (sec nsec : ℕ) × ((timer_turn (time_on (pos p)) (pos p) on).timer
        ≡ record { tv_sec = pos sec; tv_nsec = pos nsec })
      × (nsec < 1_000_000_000)
      × ((timer_turn (time_on (pos p)) (pos p) on).delay ≡ pos (1000 * sec + nsec / 1_000_000))
      × (0 < sec + nsec)
unfolding timer_turn timer_set_time time_on
timer_runs_on p false h small =
    let n = p / 100 * 2 in
    (n / 1000, n % 1000 * 1_000_000, ground arith, omega arith, ground arith, omega arith)
timer_runs_on p true h small =
    let n = p - p / 100 * 2 in
    (n / 1000, n % 1000 * 1_000_000, ground arith, omega arith, ground arith, omega arith)
