-- ===== src/LedController/Disarmed.antt =====
-- The period is zero between the two statements of the third button's branch, if it was 200 ms.
use mse_ma_csel.Common.{
  Option, not, ◌++◌, ◌≡◌, refl, inl, inr, Bool, true, false, none, some, List, [], ◌∷◌,
  Option-cases, arith,
}
use mse_ma_csel.Common.Int.{ℤ, pos, ◌-ℤ◌, ◌*ℤ◌}
use mse_ma_csel.LedController.{
  ButtonFds, Event, on_event, lowers, at_least_200, TimeSpec, timer_set_time, time_on, timer_turn,
}
use mse_ma_csel.LedController.Run.{
  Controller, Move, event, minimum, expire, set, is_off, step, steps,
}
use mse_ma_csel.LedController.Turns.{none_left}

-- The timer is off and the timer thread waits for it.
record IsStopped (ls : List Bool) (s : Controller) : Type 0 where
  off : is_off s.timer ≡ true
  waits : s.turn_at ≡ none
  lights : s.lights ≡ ls

module _ (accepts : TimeSpec → Bool) (btn : ButtonFds) where
  step-IsStopped :
      (m : Move) (ls : List Bool) (s t : Controller)
      → IsStopped ls s
      → step accepts btn m s ≡ some t
      → IsStopped ls t
  unfolding step
  step-IsStopped (event e) ls s t h eq = ground arith
  step-IsStopped minimum ls s t h eq = ground arith
  step-IsStopped expire ls s t h eq = ground arith
  step-IsStopped set ls s t h eq = ground arith

  steps-IsStopped :
      (ms : List Move) (ls : List Bool) (s t : Controller)
      → IsStopped ls s
      → steps accepts btn ms (some s) ≡ some t
      → IsStopped ls t
  steps-IsStopped [] ls s t h eq = let same : s ≡ t = ground arith in rw same at h
  steps-IsStopped (m ∷ ms) ls s t h eq = elim (Option-cases (step accepts btn m s)) [
    | inl stuck ↦ absurd (none_left accepts btn ms t (rw stuck at eq))
    | inr (u, moved) ↦ steps-IsStopped ms ls u t (step-IsStopped m ls s u h moved) (rw moved at eq)
  ]

  on_event-lowers : (e : Event) (p : ℤ) → lowers btn e ≡ true → on_event btn e p ≡ p -ℤ pos 200
  unfolding on_event
  on_event-lowers e p low = ground arith

  -- Both threads wait, the period is 200 ms and the LED is dark.
  abbrev pub short : List Bool → TimeSpec → Controller
  short lights timer = record {
    flash_period_ms = pos 200;
    lowered = false;
    turn_at = none;
    is_led_on = false;
    lights = lights;
    timer = timer;
    exited = false;
  }

  abbrev turn_between : Event → List Move
  turn_between e = event e ∷ expire ∷ minimum ∷ set ∷ []

  abbrev zero_time : TimeSpec
  zero_time = record { tv_sec = pos 0; tv_nsec = pos 0 }

  abbrev stopped : List Bool → Controller
  stopped lights = record (short (true ∷ lights) zero_time) {
    is_led_on = true;
    exited = not (accepts zero_time);
  }

  turn_between-stopped :
      (e : Event) (lights : List Bool) (timer : TimeSpec)
      → lowers btn e ≡ true
      → is_off timer ≡ false
      → steps accepts btn (turn_between e) (some (short lights timer)) ≡ some (stopped lights)
  unfolding step at_least_200 time_on timer_turn timer_set_time ◌-ℤ◌ ◌*ℤ◌
  turn_between-stopped e lights timer low armed =
      rw (on_event-lowers e (pos 200) low, low, armed) refl

  steps-append :
      (ms ns : List Move) (s : Option Controller)
      → steps accepts btn (ms ++ ns) s ≡ steps accepts btn ns (steps accepts btn ms s)
  steps-append [] ns s = refl
  steps-append (m ∷ ms) [] none = refl
  steps-append (m ∷ ms) (n ∷ ns) none = refl
  steps-append (m ∷ ms) ns (some s) = steps-append ms ns (step accepts btn m s)

  -- While the period is 200 ms and the LED is dark, a turn of the timer thread whose first look at
  -- the period falls between the two statements of the third button's branch: the timer is set to
  -- zero, and whatever moves follow, it stays so, and the LED stays lit, with nothing more written
  -- to it.
  pub lowered_stops_flashing :
      (e : Event) (lights : List Bool) (timer : TimeSpec) (ms : List Move) (t : Controller)
      → lowers btn e ≡ true
      → is_off timer ≡ false
      → steps accepts btn (turn_between e ++ ms) (some (short lights timer)) ≡ some t
      → (is_off t.timer ≡ true) × (t.lights ≡ true ∷ lights)
  lowered_stops_flashing e lights timer ms t low armed eq =
      let done =
        rw
          (
            steps-append (turn_between e) ms (some (short lights timer)),
            turn_between-stopped e lights timer low armed,
          )
          at eq in
      let h =
        steps-IsStopped ms (true ∷ lights) (stopped lights) t
          (record { off = refl; waits = refl; lights = refl }) done in
      (h.off, h.lights)
