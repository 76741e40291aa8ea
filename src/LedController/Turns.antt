-- ===== src/LedController/Turns.antt =====
-- The events of the buttons and the turns of the timer thread, statement by statement.
use mse_ma_csel.Common.{
  ℕ, ◌+◌, ◌^◌, ◌<◌, ◌≡◌, refl, sym, ap, ◌∙◌, Bool, true, false, not, none, some, List, [], ◌∷◌,
  arith,
}
use mse_ma_csel.Common.Int.{ℤ, pos, negsuc, ◌≤ℤ◌}
use mse_ma_csel.LedController.{ButtonFds, Event, on_event, lowers, TimeSpec, time_on, timer_turn}
use mse_ma_csel.LedController.Period.{
  IsPeriod, settled, on_event-IsPeriod, on_event-bound, timer_runs_on,
}
use mse_ma_csel.LedController.Run.{Controller, Move, event, minimum, expire, set, step, steps}

-- The timer is set to a time that is not zero, which would stop it.
pub record IsArmed (t : TimeSpec) : Type 0 where
  pub sec : ℕ
  pub nsec : ℕ
  pub fields : t ≡ record { tv_sec = pos sec; tv_nsec = pos nsec }
  pub positive : 0 < sec + nsec

-- `timerfd_settime` takes every time whose fields are in their range.
abbrev pub TakesTimes : (TimeSpec → Bool) → Type 0
TakesTimes accepts =
    (sec nsec : ℕ)
    → nsec < 1_000_000_000
    → accepts (record { tv_sec = pos sec; tv_nsec = pos nsec }) ≡ true

-- Both threads wait, and the LED is as the timer thread has it.
pub record IsRunning (n : ℕ) (s : Controller) : Type 0 where
  pub period : IsPeriod s.flash_period_ms
  pub bounded : s.flash_period_ms ≤ℤ pos (1000 + n)
  pub armed : IsArmed s.timer
  pub through : s.lowered ≡ false
  pub waits : s.turn_at ≡ none
  pub lives : s.exited ≡ false
  pub shown : (ls : List Bool) × (s.lights ≡ s.is_led_on ∷ ls)

-- What holds at every moment.
pub record IsFlashing (on : Bool) (s : Controller) : Type 0 where
  pub period : IsPeriod (settled s.lowered s.flash_period_ms)
  pub armed : IsArmed s.timer
  pub lives : s.exited ≡ false
  pub flag : s.is_led_on ≡ on
  pub shown : (ls : List Bool) × (s.lights ≡ on ∷ ls)

timer-IsArmed :
    (accepts : TimeSpec → Bool) (p : ℤ) (on : Bool) (n : ℕ)
    → TakesTimes accepts
    → IsPeriod p
    → p ≤ℤ pos (1000 + n)
    → 1000 + n < 2 ^ 31
    → IsArmed (timer_turn (time_on p) p on).timer
      × (accepts (timer_turn (time_on p) p on).timer ≡ true)
timer-IsArmed accepts (pos p) on n takes h b small =
    let (sec, nsec, fields, range, delay, positive) = timer_runs_on p on h (omega arith) in
    (
      record { sec = sec; nsec = nsec; fields = fields; positive = positive },
      rw fields (takes sec nsec range),
    )
timer-IsArmed accepts (negsuc p) on n takes h b small = absurd (omega arith)

pub timer_turn-lit :
    (t p : ℤ) (on : Bool)
    → ((timer_turn t p on).is_led_on ≡ not on) × ((timer_turn t p on).written ≡ not on)
unfolding timer_turn
timer_turn-lit t p true = (refl, refl)
timer_turn-lit t p false = (refl, refl)

module _ (accepts : TimeSpec → Bool) (btn : ButtonFds) where
  pub none_left : (ms : List Move) (t : Controller) → steps accepts btn ms none ≡ some t → ⊥
  none_left [] t e = ground arith
  none_left (m ∷ ms) t e = ground arith

  -- A button's branch, whole.
  abbrev pub pressed : Event → Controller → Controller
  pressed e s = record s {
    flash_period_ms = settled (lowers btn e) (on_event btn e s.flash_period_ms);
    lowered = false;
  }

  -- A turn of the timer thread, whole.
  abbrev pub turned : Controller → Controller
  turned s =
      let flash = timer_turn (time_on s.flash_period_ms) s.flash_period_ms s.is_led_on in
      record s {
        turn_at = none;
        is_led_on = flash.is_led_on;
        lights = flash.written ∷ s.lights;
        timer = flash.timer;
        exited = not (accepts flash.timer);
      }

  pub pressed-IsRunning :
      (e : Event) (n : ℕ) (s : Controller) → IsRunning n s → IsRunning (n + 200) (pressed e s)
  pressed-IsRunning e n s h = record {
    period = on_event-IsPeriod btn e s.flash_period_ms h.period;
    bounded = omega (arith, on_event-bound btn e s.flash_period_ms n h.period h.bounded);
    armed = h.armed;
    through = refl;
    waits = h.waits;
    lives = h.lives;
    shown = h.shown;
  }

  pub turned-IsRunning :
      (n : ℕ) (s : Controller)
      → TakesTimes accepts
      → 1000 + n < 2 ^ 31
      → IsRunning n s
      → IsRunning (n + 200) (turned s)
  turned-IsRunning n s takes small h =
      let (armed, taken) =
        timer-IsArmed accepts s.flash_period_ms s.is_led_on n takes h.period h.bounded small in
      let (on, written) =
        timer_turn-lit (time_on s.flash_period_ms) s.flash_period_ms s.is_led_on in
      record {
        period = h.period;
        bounded = omega (arith, h.bounded);
        armed = armed;
        through = h.through;
        waits = refl;
        lives = ap not taken;
        shown = (s.lights, ap (λ x. x ∷ s.lights) (written ∙ sym on));
      }

  -- Between the two statements of the third button's branch.
  abbrev pub halfway : Event → Controller → Controller
  halfway e s = record s {
    flash_period_ms = on_event btn e s.flash_period_ms;
    lowered = lowers btn e;
  }

  abbrev pub looked : Controller → Controller
  looked s = record s { turn_at = some (time_on s.flash_period_ms) }

  pub step-event :
      (e : Event) (n : ℕ) (s : Controller)
      → IsRunning n s
      → step accepts btn (event e) s ≡ some (halfway e s)
  unfolding step
  step-event e n s h = rw (h.lives, h.through) refl

  pub step-expire :
      (n : ℕ) (s : Controller) → IsRunning n s → step accepts btn expire s ≡ some (looked s)
  unfolding step
  step-expire n s h = ground (arith, h.lives, h.waits, h.armed.fields, h.armed.positive)

  pub step-set :
      (n : ℕ) (s : Controller) → IsRunning n s → step accepts btn set (looked s) ≡ some (turned s)
  unfolding step
  step-set n s h = rw h.lives refl

  pub step-minimum :
      (e : Event) (n : ℕ) (s : Controller)
      → IsRunning n s
      → lowers btn e ≡ true
      → step accepts btn minimum (halfway e s) ≡ some (pressed e s)
  unfolding step
  step-minimum e n s h low = rw (h.lives, low) refl

  pub step_on :
      (m : Move) (ms : List Move) (s u t : Controller)
      → step accepts btn m s ≡ some u
      → steps accepts btn (m ∷ ms) (some s) ≡ some t
      → steps accepts btn ms (some u) ≡ some t
  step_on m ms s u t e eq = rw e at eq

  -- Where no second statement follows, an event's branch is through.
  pub event-through :
      (e : Event) (ms : List Move) (n : ℕ) (s t : Controller)
      → IsRunning n s
      → lowers btn e ≡ false
      → steps accepts btn (event e ∷ ms) (some s) ≡ some t
      → steps accepts btn ms (some (pressed e s)) ≡ some t
  event-through e ms n s t h high eq =
      let same : halfway e s ≡ pressed e s = rw high refl in
      rw (sym same) (rw (step-event e n s h) at eq)

  pub running-IsFlashing :
      (n : ℕ) (s t : Controller) → IsRunning n s → s ≡ t → IsFlashing s.is_led_on t
  running-IsFlashing n s t h e = rw (sym e) (record {
    period = rw h.through h.period;
    armed = h.armed;
    lives = h.lives;
    flag = refl;
    shown = h.shown;
  })
