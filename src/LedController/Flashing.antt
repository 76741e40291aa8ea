-- ===== src/LedController/Flashing.antt =====
-- The controller goes on flashing, and keeps no file open but the buttons'.
use mse_ma_csel.Common.{
  ℕ, zero, suc, ◌+◌, ◌*◌, ◌^◌, ◌<◌, ◌≡◌, refl, sym, ap, inl, inr, Bool, true, false, not, ◌||◌,
  none, some, List, [], ◌∷◌, length, Bool-cases, arith,
}
use mse_ma_csel.Common.Int.{ℤ}
use mse_ma_csel.Daemon.Posix.{Posix, open_fds}
use mse_ma_csel.Daemon.Led.{LedState}
use mse_ma_csel.LedController.{ButtonFds, Event, lowers, TimeSpec, timer_set_time, time_on}
use mse_ma_csel.LedController.Gpio.{btn_open, with_fd, open-fds}
use mse_ma_csel.LedController.Period.{on_event-IsPeriod}
use mse_ma_csel.LedController.Run.{
  Controller, Answers, flashes, first, launch, set_up_buttons, Move, event, minimum, expire, set,
  step, steps, lit_after, calm,
}
use mse_ma_csel.LedController.Turns.{
  TakesTimes, IsRunning, IsFlashing, timer_turn-lit, none_left, pressed, turned, pressed-IsRunning,
  turned-IsRunning, halfway, looked, step-event, step-expire, step-set, step-minimum, step_on,
  event-through, running-IsFlashing,
}

module _ (accepts : TimeSpec → Bool) (btn : ButtonFds) where
  not_calm : (e : Event) → lowers btn e ≡ true → (not (lowers btn e) || false) ≡ true → ⊥
  not_calm e low c = ground arith

  halfway-IsFlashing :
      (e : Event) (n : ℕ) (s t : Controller)
      → IsRunning n s
      → halfway accepts btn e s ≡ t
      → IsFlashing s.is_led_on t
  halfway-IsFlashing e n s t h eq = rw (sym eq) (record {
    period = on_event-IsPeriod btn e s.flash_period_ms h.period;
    armed = h.armed;
    lives = h.lives;
    flag = refl;
    shown = h.shown;
  })

  looked-IsFlashing :
      (n : ℕ) (s t : Controller)
      → IsRunning n s
      → looked accepts btn s ≡ t
      → IsFlashing s.is_led_on t
  looked-IsFlashing n s t h eq = rw (sym eq) (record {
    period = rw h.through h.period;
    armed = h.armed;
    lives = h.lives;
    flag = refl;
    shown = h.shown;
  })

  -- What is left of the moves after the threads' next ones, which `calm` keeps together.
  data Rest (n : ℕ) (s t : Controller) : List Move → Type 0 where
    over : {ms : List Move} → IsFlashing (lit_after ms s.is_led_on) t → Rest n s t ms
    more :
        {ms : List Move} (rest : List Move) (s' : Controller)
        → IsRunning (n + 200) s'
        → length rest < length ms
        → calm btn rest ≡ true
        → lit_after rest s'.is_led_on ≡ lit_after ms s.is_led_on
        → steps accepts btn rest (some s') ≡ some t
        → Rest n s t ms

  some_same : (s t : Controller) → some s ≡ some t → s ≡ t
  some_same s t e = ground arith

  after_event :
      (e : Event) (ms : List Move) (n : ℕ) (s t : Controller)
      → IsRunning n s
      → calm btn (event e ∷ ms) ≡ true
      → steps accepts btn (event e ∷ ms) (some s) ≡ some t
      → lowers btn e ≡ true
      → Rest n s t (event e ∷ ms)
  after_event e [] n s t h c eq low = over (
      halfway-IsFlashing e n s t h
        (some_same (halfway accepts btn e s) t (rw (step-event accepts btn e n s h) at eq)))
  after_event e (minimum ∷ ms) n s t h c eq low =
      let half =
        step_on accepts btn (event e) (minimum ∷ ms) s (halfway accepts btn e s) t
          (step-event accepts btn e n s h) eq in
      more ms (pressed accepts btn e s) (pressed-IsRunning accepts btn e n s h) (omega arith)
        (ground arith) refl
        (step_on accepts btn minimum ms (halfway accepts btn e s) (pressed accepts btn e s) t
          (step-minimum accepts btn e n s h low) half)
  after_event e (event e' ∷ ms) n s t h c eq low = absurd (not_calm e low (ground arith))
  after_event e (expire ∷ ms) n s t h c eq low = absurd (not_calm e low (ground arith))
  after_event e (set ∷ ms) n s t h c eq low = absurd (not_calm e low (ground arith))

  after_expire :
      (ms : List Move) (n : ℕ) (s t : Controller)
      → TakesTimes accepts
      → 1000 + n < 2 ^ 31
      → IsRunning n s
      → calm btn (expire ∷ ms) ≡ true
      → steps accepts btn (expire ∷ ms) (some s) ≡ some t
      → Rest n s t (expire ∷ ms)
  after_expire [] n s t takes small h c eq = over (
      looked-IsFlashing n s t h
        (some_same (looked accepts btn s) t (rw (step-expire accepts btn n s h) at eq)))
  after_expire (set ∷ ms) n s t takes small h c eq =
      let half =
        step_on accepts btn expire (set ∷ ms) s (looked accepts btn s) t
          (step-expire accepts btn n s h) eq in
      more ms (turned accepts btn s) (turned-IsRunning accepts btn n s takes small h) (omega arith)
        (ground arith)
        (ap (lit_after ms)
          (timer_turn-lit (time_on s.flash_period_ms) s.flash_period_ms s.is_led_on).0)
        (step_on accepts btn set ms (looked accepts btn s) (turned accepts btn s) t
          (step-set accepts btn n s h) half)
  after_expire (event e' ∷ ms) n s t takes small h c eq = absurd (ground arith)
  after_expire (expire ∷ ms) n s t takes small h c eq = absurd (ground arith)
  after_expire (minimum ∷ ms) n s t takes small h c eq = absurd (ground arith)

  minimum_waits : (n : ℕ) (s : Controller) → IsRunning n s → step accepts btn minimum s ≡ none
  unfolding step
  minimum_waits n s h = rw (h.lives, h.through) refl

  set_waits : (n : ℕ) (s : Controller) → IsRunning n s → step accepts btn set s ≡ none
  unfolding step
  set_waits n s h = rw (h.lives, h.waits) refl

  next :
      (ms : List Move) (n : ℕ) (s t : Controller)
      → TakesTimes accepts
      → 1000 + n < 2 ^ 31
      → IsRunning n s
      → calm btn ms ≡ true
      → steps accepts btn ms (some s) ≡ some t
      → Rest n s t ms
  next [] n s t takes small h c eq =
      over (running-IsFlashing accepts btn n s t h (some_same s t eq))
  next (event e ∷ ms) n s t takes small h c eq = elim (Bool-cases (lowers btn e)) [
    | inl low ↦ after_event e ms n s t h c eq low
    | inr high ↦
        more ms (pressed accepts btn e s) (pressed-IsRunning accepts btn e n s h) (omega arith)
          (ground arith) refl (event-through accepts btn e ms n s t h high eq)
  ]
  next (expire ∷ ms) n s t takes small h c eq = after_expire ms n s t takes small h c eq
  next (minimum ∷ ms) n s t takes small h c eq =
      absurd (none_left accepts btn ms t (rw (minimum_waits n s h) at eq))
  next (set ∷ ms) n s t takes small h c eq =
      absurd (none_left accepts btn ms t (rw (set_waits n s h) at eq))

  steps-IsFlashing :
      (k n : ℕ) (ms : List Move) (s t : Controller)
      → TakesTimes accepts
      → length ms < k
      → 1000 + n + 200 * k < 2 ^ 31
      → IsRunning n s
      → calm btn ms ≡ true
      → steps accepts btn ms (some s) ≡ some t
      → IsFlashing (lit_after ms s.is_led_on) t
  steps-IsFlashing zero n ms s t takes few small h c eq = absurd (omega arith)
  steps-IsFlashing (suc k) n ms s t takes few small h c eq =
      elim (next ms n s t takes (omega arith) h c eq) [
        | over done ↦ done
        | more rest s' h' less c' same eq' ↦
            rw (sym same)
              (steps-IsFlashing k (n + 200) rest s' t takes (omega arith) (omega arith) h' c' eq')
      ]

first-IsRunning : IsRunning 0 first
unfolding timer_set_time
first-IsRunning = record {
  period = (omega arith, refl);
  bounded = omega arith;
  armed = record { sec = 1; nsec = 0; fields = refl; positive = omega arith };
  through = refl;
  waits = refl;
  lives = refl;
  shown = ([], refl);
}

-- Once `main` has launched its threads, where the system takes every time with fields in their
-- range, and for fewer than ten million moves of which none falls between the timer thread's two
-- looks at the period or between the two statements of the third button's branch: in whatever order
-- the buttons and the timer are served, the period is a positive multiple of 200 ms, once the
-- button's branch is through; the timer was never set to zero, which would stop it, and the program
-- did not end; and what was last written to the LED is on just if the number of the timer's turns
-- is odd, as `isLedOn` says.
pub flashes_on :
    (os : Answers) (accepts : TimeSpec → Bool) (btn : ButtonFds) (ms : List Move) (s t : Controller)
    → TakesTimes accepts
    → launch os ≡ flashes s
    → length ms < 10_000_000
    → calm btn ms ≡ true
    → steps accepts btn ms (some s) ≡ some t
    → IsFlashing (lit_after ms false) t
unfolding launch
flashes_on os accepts btn ms s t takes e few c eq =
    let same : first ≡ s = ground arith in
    steps-IsFlashing accepts btn 10_000_000 0 ms first t takes few (omega arith) first-IsRunning c
      (rw (sym same) at eq)

-- The set-up of the buttons leaves open just those of the three files that could be opened.
pub set_up_buttons-fds :
    (os : Posix) (s : LedState) (gs : List ℤ)
    → open_fds s.calls ≡ some gs
    → let (btn, s') = set_up_buttons os s in
      open_fds s'.calls ≡ some (with_fd btn.btn2 (with_fd btn.btn1 (with_fd btn.btn0 gs)))
unfolding set_up_buttons
set_up_buttons-fds os s gs h =
    let s1 = (btn_open os "/sys/class/gpio/gpio0" "0" s).1 in
    let s2 = (btn_open os "/sys/class/gpio/gpio2" "2" s1).1 in
    let f0 = (open-fds os "/sys/class/gpio/gpio0" "0" s gs h).1 in
    let f1 = (open-fds os "/sys/class/gpio/gpio2" "2" s1 _ f0).1 in
    let f2 = (open-fds os "/sys/class/gpio/gpio3" "3" s2 _ f1).1 in ground (arith, f2)
